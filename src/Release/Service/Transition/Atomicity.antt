-- ===== src/Release/Service/Transition/Atomicity.antt =====
-- internal/release/service.go: a transition happens with its audit row, or not at all.
use domain_lifecycle_deploym.Base.{
  false, ℕ, ◌≡◌, refl, String, true, some, Bool-cases, inl, inr, ◌⊎◌, first, eq_iff, ◌∙◌,
}
use domain_lifecycle_deploym.Base.Exec.{Session, ok, throw, counted}
use domain_lifecycle_deploym.Base.Runs.{
  Ran, Runs, Runs-bind, Runs-reads, Runs-then, Runs-writes, Runs-transaction,
}
use domain_lifecycle_deploym.Release.Tables.{
  Reason, Actor, Release, Tables, invalid_release_state, db_failed,
}
use domain_lifecycle_deploym.Release.Graph.{can_release_transition}
use domain_lifecycle_deploym.Release.Store.{
  is_release, transition_tx, update_release_status_tx, insert_release_state_history_tx,
}
use domain_lifecycle_deploym.Release.Service.Transition.{transition_release}
use domain_lifecycle_deploym.Release.Effects.{moved, transition_tx_ok}
use domain_lifecycle_deploym.Base.Atomic.{Refused, transaction_cases}

transition_tx-Runs :
    (id : ℕ) (from to : String) (reason : Reason) (by : Actor) (r : Release) (t : Tables)
    → first (is_release id) t.releases ≡ some r
    → r.status ≡ from
    → Runs (transition_tx id from to reason by) t tt (moved id from to reason by t)
unfolding transition_tx update_release_status_tx insert_release_state_history_tx
transition_tx-Runs id from to reason by r t f s =
    Runs-bind _ _ t t _ r tt (Runs-reads _ _ t r (rw f refl)) (
      Runs-then _ _ _ t tt _ ((eq_iff r.status from).1 s)
        (Runs-bind _ _ t _ _ tt tt (Runs-writes _ _ t) (Runs-writes _ _ _)))

pub transition_release-Runs :
    (id : ℕ) (from to : String) (reason : Reason) (by : Actor) (r : Release) (t : Tables)
    → can_release_transition from to ≡ true
    → first (is_release id) t.releases ≡ some r
    → r.status ≡ from
    → Runs (transition_release id from to reason by) t tt (moved id from to reason by t)
unfolding transition_release
transition_release-Runs id from to reason by r t c f s =
    Runs-then _ _ _ t tt _ c
      (Runs-transaction _ _ _ t tt _ (transition_tx-Runs id from to reason by r t f s))

-- The edge is in the graph, the release had the status `from`, and now it has `to` and the audit row.
abbrev pub Changed : ℕ → String → String → Reason → Actor → Tables → Tables → Type 0
Changed id from to reason by t u =
    (can_release_transition from to ≡ true)
    × (((r : Release) × ((first (is_release id) t.releases ≡ some r) × (r.status ≡ from)))
        × (u ≡ moved id from to reason by t))

-- A transition either returns, and then the graph has the edge, the release had the status `from`
-- and has got the status and the audit row; or it fails, and then the tables are as before, whatever
-- call failed in it.
pub transition_release-Atomic :
    (id : ℕ) (from to : String) (reason : Reason) (by : Actor) (d : Session Tables)
    → (((transition_release id from to reason by d).0 ≡ ok tt)
        × Changed id from to reason by d.tables
            (transition_release id from to reason by d).1.tables)
      ⊎ Refused d.tables (transition_release id from to reason by d)
unfolding transition_release throw
transition_release-Atomic id from to reason by d =
    elim (Bool-cases (can_release_transition from to)) [
      | inl c ↦
          rw c
            (elim (transaction_cases db_failed db_failed (transition_tx id from to reason by) d) [
              | inl (u, (returned, (h, same))) ↦
                  let (r, f, s, after) =
                    transition_tx_ok id from to reason by (counted d) u returned in
                  inl (h, (refl, ((r, (f, s)), same ∙ after)))
              | inr x ↦ inr x
            ])
      | inr c ↦ rw c (inr ((invalid_release_state, refl), refl))
    ]

-- With no call failing, a release in status `from` with an edge to `to` makes the transition:
-- its status is `to` and one audit row is appended, with the reason and the actor given.
pub transition_release-moves :
    (id : ℕ) (from to : String) (reason : Reason) (by : Actor) (r : Release) (d0 : Session Tables)
    → can_release_transition from to ≡ true
    → first (is_release id) d0.tables.releases ≡ some r
    → r.status ≡ from
    → ((n : ℕ) → d0.faults n ≡ false)
    → Ran (transition_release id from to reason by d0) tt (moved id from to reason by d0.tables)
transition_release-moves id from to reason by r d0 h0 h1 h2 q =
    (transition_release-Runs id from to reason by r d0.tables h0 h1 h2).at d0 refl q
