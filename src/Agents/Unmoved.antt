-- ===== src/Agents/Unmoved.antt =====
-- internal/agent/service.go: which agents a heartbeat moves.
use domain_lifecycle_deploym.Base.{
  ℕ, ◌==◌, String, str_eq, Bool, false, not, ◌&&◌, some, List, ◌≡◌, refl, ap, ◌∙◌, arith, first,
  map, map-update_where,
}
use domain_lifecycle_deploym.Base.Exec.{Session, on_option}
use domain_lifecycle_deploym.Base.Always.{
  Always, Always-pure, Always-reads, Always-bind, Always-if, Always-end, Always-before,
  Always-given,
}
use domain_lifecycle_deploym.Agents.Tables.{
  AgentRow, AgentStateHistoryRow, AgentTables, call_failed,
}
use domain_lifecycle_deploym.Agents.Store.{find_by_agent_id}
use domain_lifecycle_deploym.Agents.Service.{HeartbeatRequest, bring_back, heartbeat}
use domain_lifecycle_deploym.Agents.Kept.{Indifferent, heartbeat_of-Kept}

abbrev pub agent_statuses : AgentTables → List (ℕ × String)
agent_statuses t = map (λ a. (a.id, a.status)) t.agents

module _ (vs : List (ℕ × String)) (hs : List AgentStateHistoryRow) where
  abbrev Same : AgentTables → Type 0
  Same t = (agent_statuses t ≡ vs) × (t.history ≡ hs)

  Same-Indifferent : Indifferent Same
  Same-Indifferent = record {
    columns = λ k f t i s q. (
      map-update_where (λ a. (a.id, a.status)) (λ a. a.id == k) f t.agents (λ a. rw (i a, s a) refl)
          ∙ q.0,
      q.1,
    );
    heartbeats = λ h t q. q;
    tasks = λ k t q. q;
    logs = λ l t q. q;
  }

  bring_back-Same :
      (a : AgentRow)
      → str_eq a.status "offline" ≡ false
      → Always (bring_back a) Same (λ _. Same) Same
  bring_back-Same a h =
      Always-if (str_eq a.status "offline") _ _ (λ y. absurd (ground arith))
        (λ _. Always-pure tt (λ t q. q))

abbrev pub is_named : String → AgentRow → Bool
is_named agent_id a = str_eq a.agent_id agent_id && not a.is_deleted

-- A heartbeat of an agent that is in any state but "offline", such as "registered", leaves the states
-- of all agents and their history as they are, whatever calls fail in it.
pub heartbeat-Unmoved :
    (req : HeartbeatRequest) (a : AgentRow) (d : Session AgentTables)
    → first (is_named req.agent_id) d.tables.agents ≡ some a
    → str_eq a.status "offline" ≡ false
    → (agent_statuses (heartbeat req d).1.tables ≡ agent_statuses d.tables)
      × ((heartbeat req d).1.tables.history ≡ d.tables.history)
unfolding heartbeat find_by_agent_id on_option
heartbeat-Unmoved req a d f h =
    let vs = agent_statuses d.tables in
    let hs = d.tables.history in
    Always-end {P = λ t. t ≡ d.tables} {Q = Same vs hs} _ d refl (
      Always-bind {R = λ found t. (t ≡ d.tables) × (found ≡ some a)} _ _
        (Always-reads call_failed _ (λ t e. (ap agent_statuses e, ap (λ u. u.history) e))
          (λ t e. (e, rw e f)))
        (λ found. Always-given {P = λ t. t ≡ d.tables} _ (λ e. rw e (
          Always-before _ (λ t k. (ap agent_statuses k, ap (λ u. u.history) k))
            (heartbeat_of-Kept (Same-Indifferent vs hs) req a (bring_back-Same vs hs a h))))))
