-- ===== src/Examples/Fleet.antt =====
-- Concrete agents for the statements on agents that have hypotheses.
use domain_lifecycle_deploym.Base.{
  ◌≡◌, refl, str_eq, false, none, some, [], ◌∷◌, arith, first, any, ◌==◌,
}
use domain_lifecycle_deploym.Base.Exec.{Session}
use domain_lifecycle_deploym.Agents.Tables.{AgentRow, AgentTables}
use domain_lifecycle_deploym.Agents.Service.{HeartbeatRequest, heartbeat}
use domain_lifecycle_deploym.Agents.Trails.{Traced, agent_trail}
use domain_lifecycle_deploym.Agents.Histories.{
  moves, checks, beats, passes, all_agent_acts, all_agent_acts-Traced,
}
use domain_lifecycle_deploym.Agents.Unmoved.{is_named, agent_statuses, heartbeat-Unmoved}

abbrev newcomer : AgentRow
newcomer = record {
  id = 1;
  agent_id = "agent-1";
  hostname = "web";
  ip = none;
  region = none;
  datacenter = none;
  host_group_id = none;
  agent_version = none;
  cert_serial = none;
  status = "registered";
  last_seen_at = some 10;
  is_deleted = false;
}

abbrev fleet_tables : AgentTables
fleet_tables = record {
  now = 20;
  next_id = 2;
  agents = newcomer ∷ [];
  history = [];
  heartbeats = [];
  tasks = [];
  groups = [];
  logs = [];
}

-- The third call fails.
abbrev fleet : Session AgentTables
fleet = record { tables = fleet_tables; faults = λ n. n == 2; calls = 0 }

abbrev pulse : HeartbeatRequest
pulse = record {
  agent_id = "agent-1";
  status = "idle";
  current_task_id = "";
  agent_version = "1.2";
  last_error = "";
}

fleet-Traced : Traced 1 fleet_tables
unfolding agent_trail any
fleet-Traced = (((λ h. refl), tt), λ h. absurd (omega (arith, h)))

all_agent_acts-Traced_example :
    Traced 1
      (all_agent_acts
        (λ s. none)
        (moves 1 "registered" "online" "promoted" "operator"
          ∷ beats pulse
          ∷ passes 200
          ∷ checks
          ∷ [])
        fleet).tables
all_agent_acts-Traced_example =
    all_agent_acts-Traced (λ s. none) 1
      (moves 1 "registered" "online" "promoted" "operator" ∷ beats pulse ∷ passes 200 ∷ checks ∷ [])
      fleet fleet-Traced

newcomer_named : first (is_named "agent-1") fleet_tables.agents ≡ some newcomer
unfolding first
newcomer_named = refl

newcomer_waits : str_eq "registered" "offline" ≡ false
newcomer_waits = refl

heartbeat-Unmoved_example :
    (agent_statuses (heartbeat pulse fleet).1.tables ≡ agent_statuses fleet_tables)
    × ((heartbeat pulse fleet).1.tables.history ≡ [])
heartbeat-Unmoved_example = heartbeat-Unmoved pulse newcomer fleet newcomer_named newcomer_waits
