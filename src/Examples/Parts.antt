-- ===== src/Examples/Parts.antt =====
-- Concrete inputs for the statements about single operations.
use domain_lifecycle_deploym.Base.{
  ℕ, ◌≡◌, refl, ◌<◌, ◌⊎◌, String, true, false, none, some, List, [], ◌∷◌, arith, any, count_where,
  get_elem?, ◌==◌, ◌%◌, first, select,
}
use domain_lifecycle_deploym.Base.Exec.{ok, Session}
use domain_lifecycle_deploym.Base.Atomic.{Refused}
use domain_lifecycle_deploym.Base.Runs.{Ran}
use domain_lifecycle_deploym.Release.Tables.{
  Tables, AgentTask, HostGroup, TaskEnvelope, ReleaseFinalizePayload, finalize_job, named, text,
  deploy_task, Agent,
}
use domain_lifecycle_deploym.Base.Graph.{contains}
use domain_lifecycle_deploym.Release.Graph.{can_release_transition, all_release_states}
use domain_lifecycle_deploym.Release.Graph.Closed.{release_graph-Closed}
use domain_lifecycle_deploym.Release.TaskStore.{task_stats}
use domain_lifecycle_deploym.Release.Planner.{DomainPlanInput, plan_shards}
use domain_lifecycle_deploym.Release.Planner.Members.{count}
use domain_lifecycle_deploym.Release.Planner.Partition.{shard_domains, ids, plan_shards-count}
use domain_lifecycle_deploym.Release.Planner.Shards.{Numbered, plan_shards-Numbered}
use domain_lifecycle_deploym.Release.Reload.{DispatchItem, batch_size, apply_reload_batching}
use domain_lifecycle_deploym.Release.Reload.Laws.{reloads_of, reloads-apply_reload_batching}
use domain_lifecycle_deploym.Release.Effects.{moved}
use domain_lifecycle_deploym.Release.Service.Transition.{transition_release}
use domain_lifecycle_deploym.Release.Service.Transition.Atomicity.{
  Changed, transition_release-Atomic, transition_release-moves,
}
use domain_lifecycle_deploym.Release.Service.Finalize.{finalize, still_running, has_failed}
use domain_lifecycle_deploym.Release.Service.Finalize.Polling.{
  not_done, concluded-AllDone, finalize-waits, at_work, counted_tasks,
}
use domain_lifecycle_deploym.Examples.{release_in, executing_tables, executing}

abbrev inputs : List DomainPlanInput
inputs =
    record { id = 4; host_group_id = some 2 }
    ∷ record { id = 5; host_group_id = none }
    ∷ record { id = 6; host_group_id = some 1 }
    ∷ record { id = 7; host_group_id = some 2 }
    ∷ []

plan_shards-count_example :
    count 7 (shard_domains (plan_shards "by_host_group" inputs)) ≡ count 7 (ids inputs)
plan_shards-count_example = plan_shards-count "by_host_group" inputs 7

plan_shards-Numbered_example : Numbered inputs 0 (plan_shards "by_host_group" inputs)
plan_shards-Numbered_example = plan_shards-Numbered "by_host_group" inputs

-- The shards of host groups 1 and 2, then the default shard.
planned_domains : shard_domains (plan_shards "by_host_group" inputs) ≡ 6 ∷ 4 ∷ 7 ∷ 5 ∷ []
unfolding plan_shards shard_domains domain_lifecycle_deploym.Base.sort_by
planned_domains = refl

abbrev envelope : TaskEnvelope
envelope = record {
  type = "deploy_html";
  release_id = "r";
  artifact_url = "";
  manifest = none;
  domains = "a.com" ∷ [];
  deploy_path = "/var/www";
  nginx_path = "/etc/nginx/conf.d";
  allow_reload = true;
  defer_reload = false;
  verify_enabled = true;
  target_release_id = "";
}

abbrev item : ℕ → ℕ → DispatchItem
item task agent = record {
  domain_task_id = task;
  agent_db_id = agent;
  agent_id = "a";
  host_group_id = some 1;
  artifact_id = 7;
  artifact_url = "";
  envelope = envelope;
}

abbrev items : List DispatchItem
items = item 1 3 ∷ item 2 4 ∷ item 3 3 ∷ item 4 3 ∷ []

abbrev groups : List HostGroup
groups = (record { id = 1; reload_batch_size = 2; is_deleted = false }) ∷ []

reloads-apply_reload_batching_example : reloads_of 3 (apply_reload_batching items groups) ≡ 2
unfolding batch_size count_where first
reloads-apply_reload_batching_example = reloads-apply_reload_batching items groups 3 (omega arith)

abbrev pub task : ℕ → ℕ → String → AgentTask
task id agent status = record {
  id = id;
  task_id = deploy_task "r" id agent;
  domain_task_id = 20;
  agent_db_id = agent;
  artifact_id = 7;
  artifact_url = none;
  payload = envelope;
  status = status;
}

abbrev done_tasks : List AgentTask
done_tasks = task 1 3 "succeeded" ∷ task 2 4 "succeeded" ∷ task 3 3 "succeeded" ∷ []

not_waiting : still_running (task_stats done_tasks) 2 ≡ false
unfolding still_running task_stats count_where
not_waiting = refl

not_failing : has_failed (task_stats done_tasks) 2 ≡ false
unfolding has_failed task_stats count_where
not_failing = refl

concluded-AllDone_example : count_where not_done done_tasks ≡ 0
concluded-AllDone_example = concluded-AllDone done_tasks 2 not_waiting not_failing

release_graph-Closed_example :
    (contains all_release_states "paused" ≡ true)
    × (contains all_release_states "rolling_back" ≡ true)
unfolding can_release_transition
release_graph-Closed_example = release_graph-Closed "paused" "rolling_back" refl

abbrev agents : List Agent
agents =
    record { id = 3; agent_id = "a3"; host_group_id = none; status = "online"; is_deleted = false }
    ∷ record { id = 4; agent_id = "a4"; host_group_id = none; status = "idle"; is_deleted = false }
    ∷ []

transition_release-Atomic_example :
    (((transition_release 10 "executing" "paused" (text "") (named "u") executing).0 ≡ ok tt)
      × Changed 10 "executing" "paused"
          (text "")
          (named "u")
          executing_tables
          (transition_release 10 "executing" "paused" (text "") (named "u") executing).1.tables)
    ⊎ Refused executing_tables
        (transition_release 10 "executing" "paused" (text "") (named "u") executing)
transition_release-Atomic_example =
    transition_release-Atomic 10 "executing" "paused" (text "") (named "u") executing

pause_edge : can_release_transition "executing" "paused" ≡ true
unfolding can_release_transition
pause_edge = refl

pub is_there : first (λ r. r.id == 10) executing_tables.releases ≡ some (release_in "executing")
unfolding first
is_there = refl

transition_release-moves_example :
    Ran
      (transition_release 10 "executing" "paused" (text "") (named "u") executing)
      tt
      (moved 10 "executing" "paused" (text "") (named "u") executing_tables)
transition_release-moves_example =
    transition_release-moves 10 "executing" "paused" (text "") (named "u") (release_in "executing")
      executing pause_edge is_there refl (λ n. refl)

abbrev pub poll : ReleaseFinalizePayload
poll = record {
  release_id = 10;
  shard_id = 0;
  retry_num = 1;
  is_rollback = false;
  rollback_record_id = 0;
}

abbrev pub busy_tables : Tables
busy_tables = record executing_tables {
  domain_tasks =
      (record {
        id = 20;
        release_id = 10;
        shard_id = none;
        domain_id = 4;
        host_group_id = none;
        task_type = "deploy_html";
        status = "dispatched";
        ended_at = none;
        last_error = none;
      })
      ∷ [];
  agent_tasks = task 1 3 "claimed" ∷ [];
}

abbrev last_poll : ReleaseFinalizePayload
last_poll = record poll { retry_num = 359 }

pub still_busy : any at_work (counted_tasks last_poll busy_tables) ≡ true
unfolding select any
still_busy = refl

abbrev pub busy_session : Session Tables
busy_session = record { tables = busy_tables; faults = λ n. false; calls = 0 }

finalize-waits_example :
    Ran
      (finalize last_poll busy_session)
      tt
      (record busy_tables { queue = finalize_job (record poll { retry_num = 360 }) ∷ [] })
finalize-waits_example =
    finalize-waits last_poll (release_in "executing") busy_session is_there refl still_busy
      (omega arith) (λ n. refl)
