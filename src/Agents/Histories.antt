-- ===== src/Agents/Histories.antt =====
-- internal/agent: every call keeps the audit trails, whatever statements fail in it.
use domain_lifecycle_deploym.Base.{
  ℕ, ◌+◌, String, str_eq, eq_iff, true, false, Option, none, some, List, [], ◌∷◌, ◌++◌, ◌≡◌, refl,
  sym, subst, arith, ◌==◌, any, first, ==→eq, ◌∙◌,
}
use domain_lifecycle_deploym.Base.Exec.{Session, ok, with_tables, ignore}
use domain_lifecycle_deploym.Base.Always.{
  Always, Post, Always-pure, Always-throw, Always-query, Always-reads, Always-writes, Always-bind,
  Always-ignore, Always-if, Always-end, Always-transaction, Post-if,
}
use domain_lifecycle_deploym.Release.Tables.{TaskEnvelope}
use domain_lifecycle_deploym.Agents.Graph.{can_agent_transition}
use domain_lifecycle_deploym.Agents.Tables.{
  AgentRow, AgentTables, AgentDb, call_failed, invalid_agent_state, agent_race_condition,
}
use domain_lifecycle_deploym.Agents.Store.{
  live_agent, set_agent, agent_inserted, agent_audit_row, or_failed, update_agent_status_tx,
  insert_agent_history_tx, transition_agent_tx, create_agent, claim_task, list_stale_online_agents,
}
use domain_lifecycle_deploym.Agents.Service.{
  transition_agent, RegisterRequest, new_agent, register_agent, HeartbeatRequest, bring_back,
  heartbeat, pull_next_task, TaskReport, report_task, set_offline, check_stale_agents,
}
use domain_lifecycle_deploym.Agents.Kept.{
  Indifferent, heartbeat-Kept, pull_next_task-Kept, claim_task-Kept, report_task-Kept,
}
use domain_lifecycle_deploym.Agents.Trails.{
  Traced, EachStatus-kept, any-kept, EachStatus-append, moved-Traced,
}

module _ (id : ℕ) where
  abbrev T : AgentTables → Type 0
  T t = Traced id t

  -- Between the UPDATE and the row of the history.
  abbrev Updated : ℕ → String → String → AgentTables → Type 0
  Updated k from to t =
      (s : AgentTables) × (r : AgentRow) × (T s
        × ((first (live_agent k) s.agents ≡ some r)
            × ((r.status ≡ from) × (t ≡ set_agent k (λ a. record a { status = to }) s))))

  or_failed-Post :
      (k : ℕ) (o : Option AgentRow) (t : AgentTables)
      → first (live_agent k) t.agents ≡ o
      → T t
      → Post (λ r s. T s × (first (live_agent k) s.agents ≡ some r)) (λ _. Unit) (or_failed o) t
  or_failed-Post k none t h q = tt
  or_failed-Post k (some r) t h q = (q, h)

  transition_agent_tx-Traced :
      (k : ℕ) (from to reason by : String)
      → can_agent_transition from to ≡ true
      → Always (transition_agent_tx k from to reason by) T (λ _. T) (λ _. Unit)
  unfolding transition_agent_tx update_agent_status_tx insert_agent_history_tx
  transition_agent_tx-Traced k from to reason by c =
      Always-bind {R = λ r t. T t × (first (live_agent k) t.agents ≡ some r)} _ _
        (Always-reads call_failed _ (λ t q. tt) (λ t q. or_failed-Post k _ t refl q))
        (λ r.
          Always-if (str_eq r.status from) _ _
            (λ same.
              Always-bind {R = λ _. Updated k from to} _ _
                (Always-writes call_failed _ (λ t q. tt)
                  (λ t q. (t, r, (q.0, (q.1, ((eq_iff r.status from).0 same, refl))))))
                (λ _.
                  Always-writes call_failed _ (λ t q. tt)
                    (λ t (s, r', (q, (f, (e, h)))).
                      subst
                        (λ u. T (record u {
                          history = u.history ++ agent_audit_row k from to reason by ∷ [];
                        }))
                        (sym h) (moved-Traced id k from to reason by r' s c f e q))))
            (λ other. Always-throw agent_race_condition (λ t q. tt)))

  transition_agent-Traced :
      (k : ℕ) (from to reason by : String)
      → Always (transition_agent k from to reason by) T (λ _. T) T
  unfolding transition_agent
  transition_agent-Traced k from to reason by =
      Always-if (can_agent_transition from to) _ _
        (λ c.
          Always-transaction call_failed call_failed _ (λ t q. q)
            (transition_agent_tx-Traced k from to reason by c))
        (λ n. Always-throw invalid_agent_state (λ t q. q))

  set_agent-Traced :
      (k : ℕ) (f : AgentRow → AgentRow) (t : AgentTables)
      → ((a : AgentRow) → (f a).id ≡ a.id)
      → ((a : AgentRow) → (f a).status ≡ a.status)
      → T t
      → T (set_agent k f t)
  set_agent-Traced k f t i s (e, fresh) = (
    EachStatus-kept id _ (λ a. a.id == k) f t.agents i s e,
    λ h. ((fresh h).0, any-kept id (λ a. a.id == k) f t.agents i ∙ (fresh h).1),
  )

  any-append_new :
      (a : AgentRow) (as' : List AgentRow)
      → (a.id == id) ≡ false
      → any (λ b. b.id == id) (as' ++ a ∷ []) ≡ any (λ b. b.id == id) as'
  unfolding any
  any-append_new a [] h = ground (arith, h)
  any-append_new a (b ∷ as') h = ground (arith, any-append_new a as' h)

  agent_inserted-Traced :
      (a : AgentRow) (t : AgentTables) → a.status ≡ "registered" → T t → T (agent_inserted a t)
  agent_inserted-Traced a t s (e, fresh) = (
    EachStatus-append id _ (record a { id = t.next_id }) t.agents
        (λ h. rw (s, (fresh (omega (arith, ==→eq t.next_id id h))).0) refl) e,
    λ h. (
      (fresh (omega (arith, h))).0,
      any-append_new (record a { id = t.next_id }) t.agents (ground (arith, h))
          ∙ (fresh (omega (arith, h))).1,
    ),
  )

  create_agent-Traced :
      (a : AgentRow) → a.status ≡ "registered" → Always (create_agent a) T (λ _. T) T
  unfolding create_agent
  create_agent-Traced a s =
      Always-query call_failed _ (λ t q. q)
        (λ t q.
          Post-if (λ _. T) T (any (λ b. str_eq b.agent_id a.agent_id) t.agents) _ _ (λ _. q)
            (λ _. agent_inserted-Traced a t s q))

  register_agent-Traced :
      (agent_id : String) (req : RegisterRequest)
      → Always (register_agent agent_id req) T (λ _. T) T
  unfolding register_agent
  register_agent-Traced agent_id req = record {
    at = λ d p.
        (Always-bind _ _ (create_agent-Traced (new_agent agent_id req d.tables) refl) (λ k.
            Always-bind _ _
              (Always-ignore _
                (transition_agent-Traced k "registered" "online" "initial registration" "system"))
              (λ _. Always-pure _ (λ t q. q)))).at
          d p;
  }

  bring_back-Traced : (a : AgentRow) → Always (bring_back a) T (λ _. T) T
  bring_back-Traced a =
      Always-if (str_eq a.status "offline") _ _
        (λ _.
          Always-ignore _
            (transition_agent-Traced a.id "offline" "online" "heartbeat resumed" "system"))
        (λ _. Always-pure tt (λ t q. q))

  set_offline-Traced : (as' : List AgentRow) → Always (set_offline as') T (λ _. T) T
  unfolding set_offline
  set_offline-Traced [] = Always-pure tt (λ t q. q)
  set_offline-Traced (a ∷ as') =
      Always-bind _ _
        (Always-ignore _ (
          transition_agent-Traced a.id a.status "offline" "heartbeat missed (>90s)"
            "health_checker"))
        (λ _. set_offline-Traced as')

  check_stale_agents-Traced : Always check_stale_agents T (λ _. T) T
  unfolding check_stale_agents list_stale_online_agents
  check_stale_agents-Traced =
      Always-bind _ _ (Always-reads {Q = λ _. T} call_failed _ (λ t q. q) (λ t q. q))
        set_offline-Traced

  Traced-Indifferent : Indifferent T
  Traced-Indifferent = record {
    columns = set_agent-Traced;
    heartbeats = λ hs t q. q;
    tasks = λ ks t q. q;
    logs = λ ls t q. q;
  }

-- What agents, operators and the health check call; the clock moves between calls.
pub data AgentAction : Type 0 where
  registers : String → RegisterRequest → AgentAction
  beats : HeartbeatRequest → AgentAction
  moves : ℕ → String → String → String → String → AgentAction
  takes claims : String → AgentAction
  reports : TaskReport → AgentAction
  checks : AgentAction
  passes : ℕ → AgentAction

module _ (decode : String → Option TaskEnvelope) where
  abbrev pub agent_act : AgentAction → AgentDb Unit
  agent_act (registers agent_id req) = ignore (register_agent agent_id req)
  agent_act (beats req) = ignore (heartbeat req)
  agent_act (moves id from to reason by) = transition_agent id from to reason by
  agent_act (takes agent_id) = ignore (pull_next_task decode agent_id)
  agent_act (claims task_id) = claim_task task_id
  agent_act (reports report) = report_task report
  agent_act checks = check_stale_agents
  agent_act (passes n) = λ d. (ok tt, with_tables d (record d.tables { now = d.tables.now + n }))

  unfoldable pub all_agent_acts : List AgentAction → Session AgentTables → Session AgentTables
  all_agent_acts [] d = d
  all_agent_acts (a ∷ as') d = all_agent_acts as' (agent_act a d).1

  agent_act-Traced :
      (id : ℕ) (a : AgentAction) → Always (agent_act a) (Traced id) (λ _. Traced id) (Traced id)
  agent_act-Traced id (registers agent_id req) =
      Always-ignore _ (register_agent-Traced id agent_id req)
  agent_act-Traced id (beats req) =
      Always-ignore _ (heartbeat-Kept (Traced-Indifferent id) req (bring_back-Traced id))
  agent_act-Traced id (moves k from to reason by) = transition_agent-Traced id k from to reason by
  agent_act-Traced id (takes agent_id) =
      Always-ignore _ (pull_next_task-Kept (Traced-Indifferent id) decode agent_id)
  agent_act-Traced id (claims task_id) = claim_task-Kept (Traced-Indifferent id) task_id
  agent_act-Traced id (reports report) = report_task-Kept (Traced-Indifferent id) report
  agent_act-Traced id checks = check_stale_agents-Traced id
  agent_act-Traced id (passes n) = record { at = λ d q. q }

  -- After any sequence of calls by agents, operators and the health check, whatever statements fail in
  -- them, the rows of agent_state_history of an agent lead along edges of the state graph from
  -- "registered" to its status, if they do at the start.
  pub all_agent_acts-Traced :
      (id : ℕ) (actions : List AgentAction) (d : Session AgentTables)
      → Traced id d.tables
      → Traced id (all_agent_acts actions d).tables
  unfolding all_agent_acts
  all_agent_acts-Traced id [] d h = h
  all_agent_acts-Traced id (a ∷ as') d h =
      all_agent_acts-Traced id as' (agent_act a d).1 (Always-end _ d h (agent_act-Traced id a))
