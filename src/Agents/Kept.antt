-- ===== src/Agents/Kept.antt =====
-- internal/agent: what a change of other columns and tables keeps, every call but a transition keeps.
use domain_lifecycle_deploym.Base.{
  ℕ, String, str_eq, not, ◌&&◌, Option, none, some, List, [], ◌∷◌, ◌≡◌, refl, ltb, leb, any,
}
use domain_lifecycle_deploym.Base.Exec.{ok, writes, on_option, reads}
use domain_lifecycle_deploym.Base.Always.{
  Always, Always-pure, Always-throw, Always-query, Always-reads, Always-writes, Always-bind,
  Always-handle, Always-ignore, Always-if, Post-if,
}
use domain_lifecycle_deploym.Release.Tables.{TaskEnvelope}
use domain_lifecycle_deploym.Agents.Tables.{
  AgentRow, AgentTaskRow, AgentHeartbeatRow, DeploymentLog, AgentTables, AgentDb, call_failed,
  agent_not_found, task_not_found, bad_payload,
}
use domain_lifecycle_deploym.Agents.Store.{
  set_agent, find_by_agent_id, update_last_seen, update_agent_version, insert_heartbeat,
  next_pending_task, claim_task, is_claimable, complete_task, find_task, insert_deployment_log,
  limit_row, in_flight,
}
use domain_lifecycle_deploym.Agents.Service.{
  HeartbeatRequest, has_version, note_version, bring_back, heartbeat_of, heartbeat, pull_next_task,
  PhaseReport, TaskReport, log_phases, report_task,
}

-- `K` does not depend on other columns of agents than the ID and the status, nor on heartbeats, tasks and logs.
pub record Indifferent (K : AgentTables → Type 0) : Type 0 where
  pub columns :
      (k : ℕ) (f : AgentRow → AgentRow) (t : AgentTables)
      → ((a : AgentRow) → (f a).id ≡ a.id)
      → ((a : AgentRow) → (f a).status ≡ a.status)
      → K t
      → K (set_agent k f t)
  pub heartbeats :
      (hs : List AgentHeartbeatRow) (t : AgentTables) → K t → K (record t { heartbeats = hs })
  pub tasks : (ks : List AgentTaskRow) (t : AgentTables) → K t → K (record t { tasks = ks })
  pub logs : (ls : List DeploymentLog) (t : AgentTables) → K t → K (record t { logs = ls })

module _ {K : AgentTables → Type 0} (free : Indifferent K) where
  reading :
      {A : Type 0} (f : AgentTables → A) → Always (reads call_failed (λ t. ok (f t))) K (λ _. K) K
  reading f = Always-reads call_failed _ (λ t q. q) (λ t q. q)

  writing :
      (f : AgentTables → AgentTables)
      → ((t : AgentTables) → K t → K (f t))
      → Always (writes call_failed f) K (λ _. K) K
  writing f h = Always-writes call_failed f (λ t q. q) h

  on_option-Kept :
      {A B : Type 0} (o : Option B) (m : AgentDb A) (f : B → AgentDb A)
      → Always m K (λ _. K) K
      → ((b : B) → Always (f b) K (λ _. K) K)
      → Always (on_option o m f) K (λ _. K) K
  unfolding on_option
  on_option-Kept none m f h k = h
  on_option-Kept (some b) m f h k = k b

  next_pending_task-Kept : (k : ℕ) → Always (next_pending_task k) K (λ _. K) K
  unfolding next_pending_task
  next_pending_task-Kept k = Always-bind _ _ (reading (limit_row k)) (λ row.
      Always-if (ltb 0 row.1) _ _
        (λ _. on_option-Kept row.0 _ _ (reading _) (λ g.
          Always-bind _ _ (reading (in_flight g))
            (λ n. Always-if (leb row.1 n) _ _ (λ _. Always-pure none (λ t q. q)) (λ _. reading _))))
        (λ _. reading _))

  note_version-Kept : (v : String) (a : AgentRow) → Always (note_version v a) K (λ _. K) K
  unfolding update_agent_version
  note_version-Kept v a =
      Always-if (not (str_eq v "") && not (has_version v a)) _ _
        (λ _. Always-ignore _ (writing _ (λ t q. free.columns a.id _ t (λ b. refl) (λ b. refl) q)))
        (λ _. Always-pure tt (λ t q. q))

  pub heartbeat_of-Kept :
      (req : HeartbeatRequest) (a : AgentRow)
      → Always (bring_back a) K (λ _. K) K
      → Always (heartbeat_of req a) K (λ _. K) K
  unfolding update_last_seen insert_heartbeat
  heartbeat_of-Kept req a back =
      Always-bind _ _ (writing _ (λ t q. free.columns a.id _ t (λ b. refl) (λ b. refl) q)) (λ _.
        Always-bind _ _ (note_version-Kept req.agent_version a) (λ _.
          Always-bind _ _ (Always-ignore _ (writing _ (λ t q. free.heartbeats _ t q))) (λ _.
            Always-bind _ _ back (λ _.
              Always-handle _ _ _ (next_pending_task-Kept a.id) (λ _. Always-pure _ (λ t q. q))
                (λ _. Always-pure _ (λ t q. q))))))

  pub pull_next_task-Kept :
      (decode : String → Option TaskEnvelope) (agent_id : String)
      → Always (pull_next_task decode agent_id) K (λ _. K) K
  unfolding pull_next_task find_by_agent_id
  pull_next_task-Kept decode agent_id = Always-bind _ _ (reading _) (λ found.
      on_option-Kept found _ _ (Always-throw agent_not_found (λ t q. q)) (λ a.
        Always-bind _ _ (next_pending_task-Kept a.id) (λ next.
          on_option-Kept next _ _ (Always-pure none (λ t q. q)) (λ k.
            on_option-Kept (decode k.payload) _ _ (Always-throw bad_payload (λ t q. q))
              (λ e. Always-pure _ (λ t q. q))))))

  pub claim_task-Kept : (task_id : String) → Always (claim_task task_id) K (λ _. K) K
  unfolding claim_task
  claim_task-Kept task_id =
      Always-query call_failed _ (λ t q. q)
        (λ t q.
          Post-if (λ _. K) K (any (is_claimable task_id) t.tasks) _ _ (λ _. free.tasks _ t q)
            (λ _. q))

  log_phases-Kept : (k : ℕ) (ps : List PhaseReport) → Always (log_phases k ps) K (λ _. K) K
  unfolding log_phases insert_deployment_log
  log_phases-Kept k [] = Always-pure tt (λ t q. q)
  log_phases-Kept k (p ∷ ps) =
      Always-bind _ _ (Always-ignore _ (writing _ (λ t q. free.logs _ t q)))
        (λ _. log_phases-Kept k ps)

  pub report_task-Kept : (report : TaskReport) → Always (report_task report) K (λ _. K) K
  unfolding report_task find_task complete_task
  report_task-Kept report = Always-bind _ _ (reading _) (λ found.
      on_option-Kept found _ _ (Always-throw task_not_found (λ t q. q)) (λ k.
        Always-bind _ _ (writing _ (λ t q. free.tasks _ t q))
          (λ _. log_phases-Kept k.id report.phases)))

  pub heartbeat-Kept :
      (req : HeartbeatRequest)
      → ((a : AgentRow) → Always (bring_back a) K (λ _. K) K)
      → Always (heartbeat req) K (λ _. K) K
  unfolding heartbeat find_by_agent_id
  heartbeat-Kept req back = Always-bind _ _ (reading _) (λ found.
      on_option-Kept found _ _ (Always-throw agent_not_found (λ t q. q))
        (λ a. heartbeat_of-Kept req a (back a)))
