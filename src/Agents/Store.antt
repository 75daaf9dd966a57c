-- ===== src/Agents/Store.antt =====
-- store/postgres/agent.go: the statements of agent management.
use domain_lifecycle_deploym.Base.{
  ℕ, suc, String, str_eq, Bool, true, false, not, ◌&&◌, ◌||◌, Option, none, some, List, [], ◌∷◌,
  ◌++◌, ◌==◌, ltb, leb, ◌+◌, if◌then◌else◌, first, any, select, count_where, update_where, sort_by,
}
use domain_lifecycle_deploym.Base.Exec.{
  Res, ok, err, pure, throw, query, reads, writes, on_option, ◌>>=◌, ◌>>◌,
}
use domain_lifecycle_deploym.Agents.Tables.{
  AgentRow, AgentStateHistoryRow, AgentHeartbeatRow, AgentTaskRow, HostGroupRow, DeploymentLog,
  AgentTables, AgentError, AgentDb, call_failed, agent_race_condition, duplicate_agent_id,
  task_not_pending,
}

-- `id = $1 AND deleted_at IS NULL`.
abbrev pub live_agent : ℕ → AgentRow → Bool
live_agent id a = a.id == id && not a.is_deleted

unfoldable pub find_by_agent_id : String → AgentDb (Option AgentRow)
unfolding reads first
find_by_agent_id agent_id =
    reads call_failed
      (λ t. ok (first (λ a. str_eq a.agent_id agent_id && not a.is_deleted) t.agents))

abbrev pub agent_inserted : AgentRow → AgentTables → AgentTables
agent_inserted a t = record t {
  next_id = suc t.next_id;
  agents = t.agents ++ record a { id = t.next_id } ∷ [];
}

-- INSERT INTO agents; `uq_agents_agent_id` refuses a second row with the public ID.
unfoldable pub create_agent : AgentRow → AgentDb ℕ
unfolding query any
create_agent a = query call_failed (λ t.
    if any (λ b. str_eq b.agent_id a.agent_id) t.agents
    then (err duplicate_agent_id, t)
    else (ok t.next_id, agent_inserted a t))

abbrev pub set_agent : ℕ → (AgentRow → AgentRow) → AgentTables → AgentTables
set_agent id f t = record t { agents = update_where (λ a. a.id == id) f t.agents }

abbrev pub agent_audit_row : ℕ → String → String → String → String → AgentStateHistoryRow
agent_audit_row id from to reason by = record {
  agent_id = id;
  from_state = some from;
  to_state = to;
  reason = reason;
  triggered_by = by;
}

unfoldable pub update_agent_status_tx : ℕ → String → AgentDb Unit
unfolding writes
update_agent_status_tx id to = writes call_failed (set_agent id (λ a. record a { status = to }))

unfoldable pub insert_agent_history_tx : AgentStateHistoryRow → AgentDb Unit
unfolding writes
insert_agent_history_tx h = writes call_failed (λ t. record t { history = t.history ++ h ∷ [] })

-- A row that is not there is an error of the call.
abbrev pub or_failed : Option AgentRow → Res AgentError AgentRow
or_failed none = err call_failed
or_failed (some a) = ok a

unfoldable pub transition_agent_tx : ℕ → String → String → String → String → AgentDb Unit
unfolding reads first ◌>>=◌ throw update_agent_status_tx insert_agent_history_tx
transition_agent_tx id expected_from to reason by = do
  current ← reads call_failed (λ t. or_failed (first (live_agent id) t.agents))
  if str_eq current.status expected_from
      then (do
        update_agent_status_tx id to
        insert_agent_history_tx (agent_audit_row id expected_from to reason by))
      else throw agent_race_condition

-- The time is `time.Now()` of the caller.
unfoldable pub update_last_seen : ℕ → AgentDb Unit
unfolding writes
update_last_seen id =
    writes call_failed (λ t. set_agent id (λ a. record a { last_seen_at = some t.now }) t)

unfoldable pub update_agent_version : ℕ → String → AgentDb Unit
unfolding writes
update_agent_version id version =
    writes call_failed (set_agent id (λ a. record a { agent_version = some version }))

unfoldable pub insert_heartbeat : AgentHeartbeatRow → AgentDb Unit
unfolding writes
insert_heartbeat hb = writes call_failed (λ t. record t { heartbeats = t.heartbeats ++ hb ∷ [] })

abbrev pub limit_in : List HostGroupRow → Option ℕ → ℕ
limit_in groups none = 0
limit_in groups (some g) = elim (first (λ h. h.id == g) groups) [
  | none ↦ 0
  | some h ↦ h.max_concurrency
]

-- The group of the agent and its limit; an agent that is not there has no group.
unfoldable pub limit_row : ℕ → AgentTables → Option ℕ × ℕ
unfolding first
limit_row id t = elim (first (λ a. a.id == id) t.agents) [
  | none ↦ (none, 0)
  | some a ↦ (a.host_group_id, limit_in t.groups a.host_group_id)
]

abbrev pub in_group : ℕ → AgentRow → Bool
in_group g a = elim a.host_group_id [ none ↦ false | some h ↦ h == g ]

abbrev pub is_in_flight : AgentTaskRow → Bool
is_in_flight k = str_eq k.status "claimed" || str_eq k.status "running"

-- The tasks claimed or running on the agents of a group.
unfoldable pub in_flight : ℕ → AgentTables → ℕ
unfolding count_where any
in_flight g t =
    count_where (λ k. is_in_flight k && any (λ a. a.id == k.agent_id && in_group g a) t.agents)
      t.tasks

abbrev pub is_pending_for : ℕ → AgentTaskRow → Bool
is_pending_for id k = k.agent_id == id && str_eq k.status "pending"

abbrev pub head_of : List AgentTaskRow → Option AgentTaskRow
head_of [] = none
head_of (k ∷ ks) = some k

unfoldable pub oldest_pending : ℕ → AgentTables → Option AgentTaskRow
unfolding select sort_by
oldest_pending id t =
    head_of (sort_by (λ a b. leb a.created_at b.created_at) (select (is_pending_for id) t.tasks))

abbrev pub serve : ℕ → AgentDb (Option AgentTaskRow)
serve id = reads call_failed (λ t. ok (oldest_pending id t))

abbrev pub serve_below : ℕ → ℕ → ℕ → AgentDb (Option AgentTaskRow)
serve_below id limit g = do
  running ← reads call_failed (λ t. ok (in_flight g t))
  if leb limit running then pure none else serve id

abbrev pub serve_within : ℕ → Option ℕ × ℕ → AgentDb (Option AgentTaskRow)
serve_within id (group, limit) =
    if ltb 0 limit then on_option group (serve id) (serve_below id limit) else serve id

unfoldable pub next_pending_task : ℕ → AgentDb (Option AgentTaskRow)
next_pending_task id = do row ← reads call_failed (λ t. ok (limit_row id t)); serve_within id row

abbrev pub set_tasks :
    (AgentTaskRow → Bool) → (AgentTaskRow → AgentTaskRow) → AgentTables → AgentTables
set_tasks p f t = record t { tasks = update_where p f t.tasks }

abbrev pub is_claimable : String → AgentTaskRow → Bool
is_claimable task_id k = str_eq k.task_id task_id && str_eq k.status "pending"

-- An UPDATE that touches no row is an error.
unfoldable pub claim_task : String → AgentDb Unit
unfolding query any
claim_task task_id = query call_failed (λ t.
    if any (is_claimable task_id) t.tasks
    then (
      ok tt,
      set_tasks (is_claimable task_id)
          (λ k. record k { status = "claimed"; claimed_at = some t.now }) t,
    )
    else (err task_not_pending, t))

abbrev pub unless_empty : String → Option String
unless_empty s = if str_eq s "" then none else some s

unfoldable pub complete_task : String → String → ℕ → String → AgentDb Unit
unfolding writes
complete_task task_id status duration last_error = writes call_failed (λ t.
    set_tasks (λ k. str_eq k.task_id task_id)
      (λ k. record k {
        status = status;
        ended_at = some t.now;
        duration_ms = some duration;
        last_error = unless_empty last_error;
      })
      t)

unfoldable pub find_task : String → AgentDb (Option AgentTaskRow)
unfolding reads first
find_task task_id = reads call_failed (λ t. ok (first (λ k. str_eq k.task_id task_id) t.tasks))

unfoldable pub insert_deployment_log : DeploymentLog → AgentDb Unit
unfolding writes
insert_deployment_log l = writes call_failed (λ t. record t { logs = t.logs ++ l ∷ [] })

-- Online, busy or idle, and not seen in the last `threshold` seconds.
abbrev pub is_stale : ℕ → ℕ → AgentRow → Bool
is_stale now threshold a =
    (str_eq a.status "online" || (str_eq a.status "busy" || str_eq a.status "idle"))
    && (not a.is_deleted
        && elim a.last_seen_at [ none ↦ true | some seen ↦ ltb (seen + threshold) now ])

unfoldable pub list_stale_online_agents : ℕ → AgentDb (List AgentRow)
unfolding reads select
list_stale_online_agents threshold =
    reads call_failed (λ t. ok (select (is_stale t.now threshold) t.agents))
