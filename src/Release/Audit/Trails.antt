-- ===== src/Release/Audit/Trails.antt =====
-- The audit trail of the releases over any sequence of operations, with any calls failing in them.
use domain_lifecycle_deploym.Base.{ℕ, ◌≡◌, refl, Option, String, true, some, any, subst, sym, ◌∙◌}
use mathlib.Core.List.{append-nil}
use domain_lifecycle_deploym.Base.Exec.{Session}
use domain_lifecycle_deploym.Base.Follows.{Star}
use domain_lifecycle_deploym.Release.Tables.{Tables}
use domain_lifecycle_deploym.Release.Graph.{is_terminal_release_state}
use domain_lifecycle_deploym.Release.Effects.{lookup_status, statuses}
use domain_lifecycle_deploym.Release.Audit.{trail, Consistent, Step, Audited}
use domain_lifecycle_deploym.Release.Audit.Walks.{started, is_edge, terminal-Walk, started-Walk}
use domain_lifecycle_deploym.Release.Audit.Laws.{
  Progress, Steps-Effect, Effects-Consistent, Effects-Progress,
}

module _ (digest : String → ℕ → ℕ → String) (presign : String → String → Option String) where
  -- Every sequence of service operations and of changes to other tables, whatever calls fail,
  -- keeps the audit trail: each release's rows in release_state_history are a walk in the state graph
  -- from pending to the release's status, and an ID not yet given has no transition row.
  pub operations-Consistent :
      (d e : Session Tables)
      → Consistent d.tables
      → Star (Step digest presign) d e
      → Consistent e.tables
  operations-Consistent d e c p =
      Effects-Consistent d.tables e.tables (Steps-Effect digest presign d e p) c

  -- Over such a sequence a release with status x stays in the table, its status moves along
  -- edges of the state graph, and its audit trail grows by exactly these edges.
  pub operations-Progress :
      (id : ℕ) (x : String) (d e : Session Tables)
      → lookup_status id (statuses d.tables) ≡ some x
      → Star (Step digest presign) d e
      → Progress id x d.tables e.tables
  operations-Progress id x d e h p =
      Effects-Progress id x d.tables e.tables (Steps-Effect digest presign d e p) h

  -- Over such a sequence a release in a terminal state keeps its status, and no transition row of
  -- it is added.
  pub terminal_release-kept :
      (id : ℕ) (x : String) (d e : Session Tables)
      → is_terminal_release_state x ≡ true
      → lookup_status id (statuses d.tables) ≡ some x
      → Star (Step digest presign) d e
      → (lookup_status id (statuses e.tables) ≡ some x)
        × (trail id e.tables.history ≡ trail id d.tables.history)
  terminal_release-kept id x d e t h p =
      let r = operations-Progress id x d e h p in
      let (same, none_new) = terminal-Walk x r.status r.edges t r.walk in
      (
        subst (λ s. lookup_status id (statuses e.tables) ≡ some s) (sym same) r.found,
        r.logged_edges ∙ rw none_new (append-nil (trail id d.tables.history)),
      )

  -- After such a sequence from consistent tables, a release that is executing, paused or succeeded
  -- has an audit row for the step from ready to executing.
  pub started_release-dispatched :
      (id : ℕ) (x : String) (d e : Session Tables)
      → Consistent d.tables
      → Star (Step digest presign) d e
      → lookup_status id (statuses e.tables) ≡ some x
      → started x ≡ true
      → any (is_edge "ready" "executing") (trail id e.tables.history) ≡ true
  started_release-dispatched id x d e c p h s =
      started-Walk "pending" x (trail id e.tables.history) refl s (
        subst (λ o. Audited o (trail id e.tables.history)) h
          ((operations-Consistent d e c p).audited id))
