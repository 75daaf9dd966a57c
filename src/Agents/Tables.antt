-- ===== src/Agents/Tables.antt =====
-- store/postgres/agent.go and internal/agent/errors.go: the rows and the errors of agent management.
use domain_lifecycle_deploym.Base.{ℕ, String, Bool, Option, List}
use domain_lifecycle_deploym.Base.Exec.{Exec}

pub record AgentRow : Type 0 where
  pub id : ℕ
  pub agent_id : String
  pub hostname : String
  pub ip : Option String
  pub region : Option String
  pub datacenter : Option String
  pub host_group_id : Option ℕ
  pub agent_version : Option String
  pub cert_serial : Option String
  pub status : String
  pub last_seen_at : Option ℕ
  pub is_deleted : Bool

pub record AgentStateHistoryRow : Type 0 where
  pub agent_id : ℕ
  pub from_state : Option String
  pub to_state : String
  pub reason : String
  pub triggered_by : String

pub record AgentHeartbeatRow : Type 0 where
  pub agent_id : ℕ
  pub status : String
  pub current_task_id : Option String
  pub agent_version : Option String
  pub last_error : Option String

-- A row of `agent_tasks`.
pub record AgentTaskRow : Type 0 where
  pub id : ℕ
  pub task_id : String
  pub agent_id : ℕ
  pub artifact_url : Option String
  pub payload : String
  pub status : String
  pub claimed_at : Option ℕ
  pub ended_at : Option ℕ
  pub duration_ms : Option ℕ
  pub last_error : Option String
  pub created_at : ℕ

pub record HostGroupRow : Type 0 where
  pub id : ℕ
  pub max_concurrency : ℕ

pub record DeploymentLog : Type 0 where
  pub agent_task_id : ℕ
  pub phase : String
  pub status : String
  pub duration_ms : ℕ
  pub detail : String

pub record AgentTables : Type 0 where
  pub now : ℕ
  pub next_id : ℕ
  pub agents : List AgentRow
  pub history : List AgentStateHistoryRow
  pub heartbeats : List AgentHeartbeatRow
  pub tasks : List AgentTaskRow
  pub groups : List HostGroupRow
  pub logs : List DeploymentLog

pub data AgentError : Type 0 where
  call_failed agent_not_found invalid_agent_state agent_race_condition : AgentError
  duplicate_agent_id task_not_pending task_not_found bad_payload : AgentError

abbrev pub AgentDb : Type 0 → Type 0
AgentDb A = Exec AgentError AgentTables A
