-- ===== src/Agents/Service.antt =====
-- internal/agent/service.go and health.go.
use domain_lifecycle_deploym.Base.{
  ℕ, String, str_eq, Bool, true, false, not, ◌&&◌, Option, none, some, List, [], ◌∷◌, if◌then◌else◌,
}
use domain_lifecycle_deploym.Base.Exec.{
  pure, throw, handle, ignore, transaction, on_option, ◌>>=◌, ◌>>◌,
}
use domain_lifecycle_deploym.Release.Tables.{TaskEnvelope}
use domain_lifecycle_deploym.Agents.Graph.{can_agent_transition}
use domain_lifecycle_deploym.Agents.Tables.{
  AgentRow, AgentHeartbeatRow, AgentTaskRow, DeploymentLog, AgentTables, call_failed,
  agent_not_found, invalid_agent_state, task_not_found, bad_payload, AgentDb,
}
use domain_lifecycle_deploym.Agents.Store.{
  find_by_agent_id, create_agent, transition_agent_tx, update_last_seen, update_agent_version,
  insert_heartbeat, next_pending_task, complete_task, find_task, insert_deployment_log,
  list_stale_online_agents, unless_empty,
}

unfoldable pub transition_agent : ℕ → String → String → String → String → AgentDb Unit
transition_agent id from to reason by =
    if can_agent_transition from to
    then transaction call_failed call_failed (transition_agent_tx id from to reason by)
    else throw invalid_agent_state

pub record RegisterRequest : Type 0 where
  pub hostname : String
  pub ip : String
  pub region : String
  pub datacenter : String
  pub host_group_id : Option ℕ
  pub agent_version : String
  pub cert_serial : String

pub record RegisterResponse : Type 0 where
  pub agent_id : String
  pub status : String
  pub heartbeat_secs : ℕ

-- The ID is given by the INSERT, and the time is that of the call.
abbrev pub new_agent : String → RegisterRequest → AgentTables → AgentRow
new_agent agent_id req t = record {
  id = 0;
  agent_id = agent_id;
  hostname = req.hostname;
  ip = unless_empty req.ip;
  region = unless_empty req.region;
  datacenter = unless_empty req.datacenter;
  host_group_id = req.host_group_id;
  agent_version = unless_empty req.agent_version;
  cert_serial = unless_empty req.cert_serial;
  status = "registered";
  last_seen_at = some t.now;
  is_deleted = false;
}

-- `agent_id` is made of a random UUID.
unfoldable pub register_agent : String → RegisterRequest → AgentDb RegisterResponse
register_agent agent_id req d =
    (do
      id ← create_agent (new_agent agent_id req d.tables)
      ignore (transition_agent id "registered" "online" "initial registration" "system")
      pure (record { agent_id = agent_id; status = "online"; heartbeat_secs = 30 }))
      d

pub record HeartbeatRequest : Type 0 where
  pub agent_id : String
  pub status : String
  pub current_task_id : String
  pub agent_version : String
  pub last_error : String

pub record HeartbeatResponse : Type 0 where
  pub ack : Bool
  pub status : String
  pub has_new_task : Bool

abbrev pub has_version : String → AgentRow → Bool
has_version v a = elim a.agent_version [ none ↦ false | some w ↦ str_eq w v ]

abbrev pub note_version : String → AgentRow → AgentDb Unit
note_version v a =
    if not (str_eq v "") && not (has_version v a)
    then ignore (update_agent_version a.id v)
    else pure tt

abbrev pub heartbeat_row : AgentRow → HeartbeatRequest → AgentHeartbeatRow
heartbeat_row a req = record {
  agent_id = a.id;
  status = req.status;
  current_task_id = unless_empty req.current_task_id;
  agent_version = unless_empty req.agent_version;
  last_error = unless_empty req.last_error;
}

abbrev pub bring_back : AgentRow → AgentDb Unit
bring_back a =
    if str_eq a.status "offline"
    then ignore (transition_agent a.id "offline" "online" "heartbeat resumed" "system")
    else pure tt

abbrev pub response : AgentRow → Bool → HeartbeatResponse
response a more = record { ack = true; status = a.status; has_new_task = more }

abbrev pub is_there : Option AgentTaskRow → Bool
is_there none = false
is_there (some k) = true

abbrev pub heartbeat_of : HeartbeatRequest → AgentRow → AgentDb HeartbeatResponse
heartbeat_of req a = do
  update_last_seen a.id
  note_version req.agent_version a
  ignore (insert_heartbeat (heartbeat_row a req))
  bring_back a
  handle (next_pending_task a.id) (λ _. pure (response a false))
      (λ task. pure (response a (is_there task)))

unfoldable pub heartbeat : HeartbeatRequest → AgentDb HeartbeatResponse
heartbeat req = do
  found ← find_by_agent_id req.agent_id
  on_option found (throw agent_not_found) (heartbeat_of req)

pub record PulledTask : Type 0 where
  pub task_id : String
  pub envelope : TaskEnvelope

abbrev pub with_url : Option String → TaskEnvelope → TaskEnvelope
with_url none e = e
with_url (some url) e = record e { artifact_url = url }

-- `decode` reads the JSON of the payload.
module _ (decode : String → Option TaskEnvelope) where
  abbrev pub pulled : AgentTaskRow → AgentDb (Option PulledTask)
  pulled k =
      on_option (decode k.payload) (throw bad_payload)
        (λ e. pure (some (record { task_id = k.task_id; envelope = with_url k.artifact_url e })))

  abbrev pub pull_for : AgentRow → AgentDb (Option PulledTask)
  pull_for a = do next ← next_pending_task a.id; on_option next (pure none) pulled

  unfoldable pub pull_next_task : String → AgentDb (Option PulledTask)
  pull_next_task agent_id = do
    found ← find_by_agent_id agent_id
    on_option found (throw agent_not_found) pull_for

pub record PhaseReport : Type 0 where
  pub phase : String
  pub status : String
  pub duration_ms : ℕ
  pub detail : String

pub record TaskReport : Type 0 where
  pub task_id : String
  pub status : String
  pub phases : List PhaseReport
  pub duration_ms : ℕ
  pub error : String

abbrev pub log_of : ℕ → PhaseReport → DeploymentLog
log_of id p = record {
  agent_task_id = id;
  phase = p.phase;
  status = p.status;
  duration_ms = p.duration_ms;
  detail = p.detail;
}

unfoldable pub log_phases : ℕ → List PhaseReport → AgentDb Unit
log_phases id [] = pure tt
log_phases id (p ∷ ps) = ignore (insert_deployment_log (log_of id p)) >> log_phases id ps

unfoldable pub report_task : TaskReport → AgentDb Unit
report_task report = do
  found ← find_task report.task_id
  on_option found (throw task_not_found) (λ k. do
    complete_task report.task_id report.status report.duration_ms report.error
    log_phases k.id report.phases)

-- The loop of the health check; an agent that cannot be moved is left for the next one.
unfoldable pub set_offline : List AgentRow → AgentDb Unit
set_offline [] = pure tt
set_offline (a ∷ as') =
    ignore (transition_agent a.id a.status "offline" "heartbeat missed (>90s)" "health_checker")
    >> set_offline as'

unfoldable pub check_stale_agents : AgentDb Unit
check_stale_agents = do stale ← list_stale_online_agents 90; set_offline stale
