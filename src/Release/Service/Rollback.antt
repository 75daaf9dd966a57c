-- ===== src/Release/Service/Rollback.antt =====
-- internal/release/rollback.go: `Rollback` and `ExecuteRollback`.
pub mod Agents
pub mod Sending
use domain_lifecycle_deploym.Base.{
  ℕ, String, str_eq, Bool, true, false, Option, none, some, List, [], ◌∷◌, map, ◌==◌, length, any,
  if◌then◌else◌,
}
use domain_lifecycle_deploym.Base.Exec.{
  pure, throw, ignore, handle, on_option, for_each, ◌>>=◌, ◌>>◌,
}
use domain_lifecycle_deploym.Release.Tables.{
  Failure, release_not_found, rollback_not_allowed, no_previous_release, no_agents, no_domain_tasks,
  db_failed, Reason, text, rollback_initiated, Actor, Release, AgentTask, TaskEnvelope,
  rollback_task, finalize_job, rollback_job, Db,
}
use domain_lifecycle_deploym.Release.Graph.{can_release_transition}
use domain_lifecycle_deploym.Release.Store.{get_by_id, get_last_succeeded, set_started_at}
use domain_lifecycle_deploym.Release.TaskStore.{
  list_by_release, list_agent_tasks_by_release, new_agent_task, create_agent_task,
  list_online_agents, create_rollback, complete_rollback,
}
use domain_lifecycle_deploym.Release.Service.Transition.{enqueue, transition_release}
use domain_lifecycle_deploym.Release.Service.Plan.{head_of}
use domain_lifecycle_deploym.Release.Service.Finalize.{complete_if}

-- `errors.Is(err, postgres.ErrReleaseNotFound)`.
abbrev pub previous_error : Failure → Failure
previous_error release_not_found = no_previous_release
previous_error e = e

unfoldable pub start_rollback : Release → ℕ → ℕ → ℕ → String → Actor → Db Unit
start_rollback rel id previous_id artifact_id reason by = do
  record_id ← handle (create_rollback id previous_id artifact_id reason) (λ _. pure 0) (λ n. pure n)
  transition_release id rel.status "rolling_back" (rollback_initiated reason) by
  ignore (
      enqueue (
        rollback_job (record {
          release_id = id;
          target_artifact_id = artifact_id;
          triggered_by = by;
          rollback_record_id = record_id;
        })))

unfoldable pub rollback : ℕ → String → Actor → Db Unit
unfolding start_rollback
rollback id reason by = do
  rel ← get_by_id id
  if can_release_transition rel.status "rolling_back"
      then handle (get_last_succeeded rel.project_id id) (λ e. throw (previous_error e))
          (λ prev.
            on_option prev.artifact_id (throw no_previous_release)
              (λ artifact_id. start_rollback rel id prev.id artifact_id reason by))
      else throw rollback_not_allowed

-- The agents of the tasks, each once, in the order of its first task.
unfoldable pub involved : List ℕ → List AgentTask → List ℕ
involved seen [] = []
involved seen (t ∷ ts) =
    let rest = involved seen ts in
    let fresh = involved (t.agent_db_id ∷ seen) ts in
    if any (λ a. a == t.agent_db_id) seen then rest else t.agent_db_id ∷ fresh

unfoldable pub rollback_envelope : Release → TaskEnvelope
rollback_envelope rel = record {
  type = "rollback";
  release_id = rel.release_id;
  artifact_url = "";
  manifest = none;
  domains = [];
  deploy_path = "";
  nginx_path = "";
  allow_reload = false;
  defer_reload = false;
  verify_enabled = false;
  target_release_id = rel.release_id;
}

unfoldable pub give_up : {A : Type 0} → ℕ → Actor → ℕ → Db A
unfolding complete_if
give_up id by record_id = do
  handle
      (transition_release id "rolling_back" "failed" (text "no agents available for rollback") by)
      (λ _. pure tt) (λ _. pure tt)
  complete_if record_id false
  throw no_agents

-- The agents of the release, or those online when it has none.
unfoldable pub rollback_agents : ℕ → Actor → ℕ → List AgentTask → Db (List ℕ)
unfolding give_up
rollback_agents id by record_id tasks =
    if length (involved [] tasks) == 0
    then handle list_online_agents (λ _. give_up id by record_id)
        (λ online.
          if length online == 0 then give_up id by record_id else pure (map (λ a. a.id) online))
    else pure (involved [] tasks)

unfoldable pub rollback_on : Release → ℕ → ℕ → ℕ → Db Unit
unfolding rollback_envelope
rollback_on rel artifact_id domain_task_id agent = ignore (
    handle
      (create_agent_task (
        new_agent_task (rollback_task rel.release_id agent) domain_task_id agent artifact_id none
          (rollback_envelope rel)))
      (λ e. throw e) (λ _. pure tt))

unfoldable pub send_rollback : Release → ℕ → ℕ → Actor → ℕ → Db Unit
unfolding rollback_agents rollback_on
send_rollback rel id artifact_id by record_id = do
  existing ← list_agent_tasks_by_release id
  agents ← rollback_agents id by record_id existing
  tasks ← list_by_release id
  on_option (head_of tasks) (throw no_domain_tasks) (λ dt. do
    for_each (rollback_on rel artifact_id dt.id) agents
    ignore (set_started_at id)
    ignore (
        enqueue (
          finalize_job (record {
            release_id = id;
            shard_id = 0;
            retry_num = 0;
            is_rollback = true;
            rollback_record_id = record_id;
          }))))

unfoldable pub execute_rollback : ℕ → ℕ → Actor → ℕ → Db Unit
unfolding send_rollback
execute_rollback id artifact_id by record_id = do
  rel ← get_by_id id
  if str_eq rel.status "rolling_back"
      then send_rollback rel id artifact_id by record_id
      else pure tt
