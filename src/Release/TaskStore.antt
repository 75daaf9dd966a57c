-- ===== src/Release/TaskStore.antt =====
-- store/postgres/domain_task.go, rollback.go, the agent tasks of agent.go, and the rows that the release
-- service only reads (domain.go, template.go, artifact.go, host_group.go).
use domain_lifecycle_deploym.Base.{
  ℕ, suc, ◌+◌, String, str_eq, Bool, true, false, not, ◌&&◌, ◌||◌, Option, none, some, List, [],
  ◌∷◌, ◌++◌, ◌==◌, leb, select, count_where, first, any, update_where, sort_by, length,
}
use Prim.Native.String.{compare as compare_text}
use text.Mathlib.Text.{is_le}
use domain_lifecycle_deploym.Base.Exec.{Res, ok, err, pure, query, reads, writes}
use domain_lifecycle_deploym.Release.Tables.{
  Failure, db_failed, domain_not_found, version_not_found, artifact_not_found, duplicate_key,
  DomainTask, AgentTask, TaskId, deploy_task, rollback_task, TaskEnvelope, Agent, HostGroup, Domain,
  TemplateVersion, Artifact, Tables, Db,
}
use domain_lifecycle_deploym.Release.Store.{found, end_time}

abbrev pub is_some_id : ℕ → Option ℕ → Bool
is_some_id id none = false
is_some_id id (some x) = x == id

-- One row of a batch; the task type is "deploy_html".
abbrev pub new_domain_task : ℕ → ℕ → ℕ → ℕ → Option ℕ → DomainTask
new_domain_task id release_id shard_id domain_id host_group_id = record {
  id = id;
  release_id = release_id;
  shard_id = some shard_id;
  domain_id = domain_id;
  host_group_id = host_group_id;
  task_type = "deploy_html";
  status = "pending";
  ended_at = none;
  last_error = none;
}

pub batch_rows : ℕ → ℕ → ℕ → List (ℕ × Option ℕ) → List DomainTask
batch_rows id release_id shard_id [] = []
batch_rows id release_id shard_id ((domain_id, hg) ∷ rest) =
    new_domain_task id release_id shard_id domain_id hg
    ∷ batch_rows (suc id) release_id shard_id rest

-- `CreateBatch` for the tasks of one shard: one INSERT, none for an empty batch.
unfoldable pub create_batch : ℕ → ℕ → List (ℕ × Option ℕ) → Db Unit
unfolding writes pure batch_rows
create_batch release_id shard_id [] = pure tt
create_batch release_id shard_id (x ∷ xs) = writes db_failed (λ t. record t {
  next_id = t.next_id + length (x ∷ xs);
  domain_tasks = t.domain_tasks ++ batch_rows t.next_id release_id shard_id (x ∷ xs);
})

abbrev pub lower_task : DomainTask → DomainTask → Bool
lower_task a b = leb a.id b.id

unfoldable pub list_by_release : ℕ → Db (List DomainTask)
unfolding reads
list_by_release id =
    reads db_failed (λ t. ok (sort_by lower_task (select (λ d. d.release_id == id) t.domain_tasks)))

unfoldable pub list_by_shard : ℕ → Db (List DomainTask)
unfolding reads
list_by_shard id =
    reads db_failed
      (λ t. ok (sort_by lower_task (select (λ d. is_some_id id d.shard_id) t.domain_tasks)))

unfoldable pub update_status : ℕ → String → Option String → Db Unit
unfolding writes
update_status id status error = writes db_failed (λ t. record t {
  domain_tasks =
      update_where (λ d. d.id == id)
        (λ d. record d {
          status = status;
          last_error = error;
          ended_at = end_time status t.now d.ended_at;
        })
        t.domain_tasks;
})

unfoldable pub same_task : TaskId → TaskId → Bool
same_task (deploy_task r d a) (deploy_task r' d' a') = str_eq r r' && (d == d' && a == a')
same_task (rollback_task r a) (rollback_task r' a') = str_eq r r' && a == a'
same_task _ _ = false

abbrev pub task_inserted : AgentTask → Tables → Bool → Res Failure AgentTask × Tables
task_inserted a t true = (err duplicate_key, t)
task_inserted a t false = (
  ok (record a { id = t.next_id }),
  record t {
    next_id = suc t.next_id;
    agent_tasks = t.agent_tasks ++ (record a { id = t.next_id }) ∷ [];
  },
)

abbrev pub new_agent_task : TaskId → ℕ → ℕ → ℕ → Option String → TaskEnvelope → AgentTask
new_agent_task task_id domain_task_id agent_db_id artifact_id url payload = record {
  id = 0;
  task_id = task_id;
  domain_task_id = domain_task_id;
  agent_db_id = agent_db_id;
  artifact_id = artifact_id;
  artifact_url = url;
  payload = payload;
  status = "pending";
}

-- `task_id` is unique.
unfoldable pub create_agent_task : AgentTask → Db AgentTask
unfolding query same_task
create_agent_task a =
    query db_failed
      (λ t. task_inserted a t (any (λ x. same_task x.task_id a.task_id) t.agent_tasks))

-- The JOIN with the domain task, whose ID is a key.
abbrev pub joined : (DomainTask → Bool) → List DomainTask → AgentTask → Bool
joined p ds a = any (λ d. (d.id == a.domain_task_id) && p d) ds

abbrev pub of_release : ℕ → DomainTask → Bool
of_release id d = d.release_id == id

abbrev pub of_shard : ℕ → DomainTask → Bool
of_shard id d = is_some_id id d.shard_id

abbrev pub lower_agent_task : AgentTask → AgentTask → Bool
lower_agent_task a b = leb a.id b.id

unfoldable pub list_agent_tasks_by_release : ℕ → Db (List AgentTask)
unfolding reads
list_agent_tasks_by_release id = reads db_failed (λ t.
    ok (sort_by lower_agent_task (select (joined (of_release id) t.domain_tasks) t.agent_tasks)))

pub record AgentTaskStats : Type 0 where
  pub total : ℕ
  pub succeeded : ℕ
  pub failed : ℕ
  pub pending : ℕ
  pub claimed : ℕ
  pub running : ℕ
  pub timeout : ℕ

abbrev pub has_status : String → AgentTask → Bool
has_status s a = str_eq a.status s

-- COUNT(*) and its FILTERs over the joined rows.
unfoldable pub task_stats : List AgentTask → AgentTaskStats
task_stats rows = record {
  total = length rows;
  succeeded = count_where (has_status "succeeded") rows;
  failed = count_where (has_status "failed") rows;
  pending = count_where (has_status "pending") rows;
  claimed = count_where (has_status "claimed") rows;
  running = count_where (has_status "running") rows;
  timeout = count_where (has_status "timeout") rows;
}

abbrev pub tasks_where : (DomainTask → Bool) → Tables → List AgentTask
tasks_where p t = select (joined p t.domain_tasks) t.agent_tasks

unfoldable pub get_agent_task_stats_by_release : ℕ → Db AgentTaskStats
unfolding reads task_stats
get_agent_task_stats_by_release id =
    reads db_failed (λ t. ok (task_stats (tasks_where (of_release id) t)))

unfoldable pub get_agent_task_stats_by_shard : ℕ → Db AgentTaskStats
unfolding reads task_stats
get_agent_task_stats_by_shard id =
    reads db_failed (λ t. ok (task_stats (tasks_where (of_shard id) t)))

abbrev pub lower_agent : Agent → Agent → Bool
lower_agent a b = leb a.id b.id

abbrev pub is_online : Agent → Bool
is_online a = (str_eq a.status "online" || str_eq a.status "idle") && not a.is_deleted

unfoldable pub list_online_agents : Db (List Agent)
unfolding reads
list_online_agents = reads db_failed (λ t. ok (sort_by lower_agent (select is_online t.agents)))

unfoldable pub list_online_by_host_group : ℕ → Db (List Agent)
unfolding reads
list_online_by_host_group hg = reads db_failed (λ t.
    ok (sort_by lower_agent (select (λ a. is_some_id hg a.host_group_id && is_online a) t.agents)))

unfoldable pub create_rollback : ℕ → ℕ → ℕ → String → Db ℕ
unfolding query
create_rollback release_id previous_id artifact_id reason = query db_failed (λ t. (
  ok t.next_id,
  record t {
    next_id = suc t.next_id;
    rollbacks =
        t.rollbacks
        ++ (record {
          id = t.next_id;
          release_id = release_id;
          rollback_release_id = some previous_id;
          target_artifact_id = artifact_id;
          scope = "release";
          reason = reason;
          completed_at = none;
          success = none;
        })
          ∷ [];
  },
))

unfoldable pub complete_rollback : ℕ → Bool → Db Unit
unfolding writes
complete_rollback id success = writes db_failed (λ t. record t {
  rollbacks =
      update_where (λ r. r.id == id)
        (λ r. record r { completed_at = some t.now; success = some success }) t.rollbacks;
})

-- `GetByID` of a host group has no error for a missing row.
unfoldable pub get_host_group : ℕ → Db (Option HostGroup)
unfolding reads
get_host_group id =
    reads db_failed (λ t. ok (first (λ g. (g.id == id) && not g.is_deleted) t.host_groups))

unfoldable pub get_domain : ℕ → Db Domain
unfolding reads
get_domain id =
    reads db_failed
      (λ t. found domain_not_found (first (λ d. (d.id == id) && not d.is_deleted) t.domains))

abbrev pub lower_fqdn : Domain → Domain → Bool
lower_fqdn a b = is_le (compare_text a.fqdn b.fqdn)

unfoldable pub list_active_by_project : ℕ → Db (List Domain)
unfolding reads
list_active_by_project project_id = reads db_failed (λ t. ok (
    sort_by lower_fqdn (
      select
        (λ d.
          (d.project_id == project_id) && (str_eq d.lifecycle_state "active" && not d.is_deleted))
        t.domains)))

unfoldable pub get_version : ℕ → Db TemplateVersion
unfolding reads
get_version id = reads db_failed (λ t. found version_not_found (first (λ v. v.id == id) t.versions))

unfoldable pub get_artifact : ℕ → Db Artifact
unfolding reads
get_artifact id =
    reads db_failed (λ t. found artifact_not_found (first (λ a. a.id == id) t.artifacts))
