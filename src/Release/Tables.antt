-- ===== src/Release/Tables.antt =====
-- The rows that a release touches (store/postgres: release.go, domain_task.go, agent.go,
-- rollback.go, and the columns read of domain.go, template.go, artifact.go, host_group.go), the task
-- queue, and the errors of internal/release/errors.go. IDs and times are natural numbers; a
-- nullable column is an `Option`. `next_id` supplies the BIGSERIAL keys of all tables, and `now` is the
-- database's clock. Columns that no modelled code reads are left out.
use domain_lifecycle_deploym.Base.{ℕ, String, Bool, Option, List}
use domain_lifecycle_deploym.Base.Exec.{Exec}

pub data Failure : Type 0 where
  -- a call that fails, whatever the reason
  db_failed : Failure
  release_not_found domain_not_found version_not_found artifact_not_found shard_not_found : Failure
  invalid_release_state release_race_condition domain_not_active no_domains_in_scope : Failure
  template_not_published rollback_not_allowed no_previous_release : Failure
  -- errors that the source builds in place
  no_artifact_id bad_manifest no_agents no_domain_tasks duplicate_key : Failure

-- `fmt.Sprintf` keeps its arguments here instead of printing them.
pub data Reason : Type 0 where
  text : String → Reason
  task_counts : Option ℕ → ℕ → ℕ → Bool → Reason
  rollback_initiated : String → Reason

-- `triggered_by`: "user:%d" or a name such as "system".
pub data Actor : Type 0 where
  user : ℕ → Actor
  named : String → Actor

pub record Release : Type 0 where
  pub id : ℕ
  pub release_id : String
  pub project_id : ℕ
  pub template_version_id : ℕ
  pub artifact_id : Option ℕ
  pub release_type : String
  pub trigger_source : String
  pub status : String
  pub total_domains : Option ℕ
  pub total_shards : Option ℕ
  pub success_count : ℕ
  pub failure_count : ℕ
  pub description : Option String
  pub created_by : Option ℕ
  pub started_at : Option ℕ
  pub ended_at : Option ℕ

pub record ReleaseScope : Type 0 where
  pub release_id : ℕ
  pub domain_id : ℕ
  pub host_group_id : Option ℕ

pub record ReleaseShard : Type 0 where
  pub id : ℕ
  pub release_id : ℕ
  pub shard_index : ℕ
  pub is_canary : Bool
  pub domain_count : ℕ
  pub status : String
  pub started_at : Option ℕ
  pub ended_at : Option ℕ
  pub success_count : ℕ
  pub failure_count : ℕ

pub record HistoryRow : Type 0 where
  pub release_id : ℕ
  pub from_state : Option String
  pub to_state : String
  pub reason : Reason
  pub triggered_by : Actor

pub record DomainTask : Type 0 where
  pub id : ℕ
  pub release_id : ℕ
  pub shard_id : Option ℕ
  pub domain_id : ℕ
  pub host_group_id : Option ℕ
  pub task_type : String
  pub status : String
  pub ended_at : Option ℕ
  pub last_error : Option String

-- The part of an artifact's manifest that the dispatcher reads.
pub record Manifest : Type 0 where
  pub project_slug : String
  pub checksum : String

pub record TaskEnvelope : Type 0 where
  pub type : String
  pub release_id : String
  pub artifact_url : String
  pub manifest : Option Manifest
  pub domains : List String
  pub deploy_path : String
  pub nginx_path : String
  pub allow_reload : Bool
  pub defer_reload : Bool
  pub verify_enabled : Bool
  pub target_release_id : String

-- `task_id`: "%s-%d-%d" of release, domain task and agent, or "rollback-%s-agent%d".
pub data TaskId : Type 0 where
  deploy_task : String → ℕ → ℕ → TaskId
  rollback_task : String → ℕ → TaskId

pub record AgentTask : Type 0 where
  pub id : ℕ
  pub task_id : TaskId
  pub domain_task_id : ℕ
  pub agent_db_id : ℕ
  pub artifact_id : ℕ
  pub artifact_url : Option String
  pub payload : TaskEnvelope
  pub status : String

pub record Agent : Type 0 where
  pub id : ℕ
  pub agent_id : String
  pub host_group_id : Option ℕ
  pub status : String
  pub is_deleted : Bool

pub record HostGroup : Type 0 where
  pub id : ℕ
  pub reload_batch_size : ℕ
  pub is_deleted : Bool

pub record Domain : Type 0 where
  pub id : ℕ
  pub fqdn : String
  pub project_id : ℕ
  pub lifecycle_state : String
  pub is_deleted : Bool

pub record TemplateVersion : Type 0 where
  pub id : ℕ
  pub published_at : Option ℕ

-- `manifest` is none where the stored JSON does not parse.
pub record Artifact : Type 0 where
  pub id : ℕ
  pub checksum : String
  pub storage_uri : String
  pub manifest : Option Manifest

pub record RollbackRecord : Type 0 where
  pub id : ℕ
  pub release_id : ℕ
  pub rollback_release_id : Option ℕ
  pub target_artifact_id : ℕ
  pub scope : String
  pub reason : String
  pub completed_at : Option ℕ
  pub success : Option Bool

-- The payloads of internal/release/service.go and internal/tasks/payloads.go.
pub record ReleasePlanPayload : Type 0 where
  pub release_id : ℕ
  pub domain_ids : List ℕ
  pub shard_strategy : String

pub record ArtifactBuildPayload : Type 0 where
  pub project_id : ℕ
  pub project_slug : String
  pub template_version_id : ℕ
  pub release_id : ℕ
  pub built_by : Option ℕ
  pub domain_ids : List ℕ

pub record ReleaseDispatchPayload : Type 0 where
  pub release_id : ℕ
  pub shard_id : ℕ

pub record ReleaseFinalizePayload : Type 0 where
  pub release_id : ℕ
  pub shard_id : ℕ
  pub retry_num : ℕ
  pub is_rollback : Bool
  pub rollback_record_id : ℕ

pub record ReleaseRollbackPayload : Type 0 where
  pub release_id : ℕ
  pub target_artifact_id : ℕ
  pub triggered_by : Actor
  pub rollback_record_id : ℕ

pub data Job : Type 0 where
  plan_job : ReleasePlanPayload → Job
  build_job : ArtifactBuildPayload → Job
  dispatch_job : ReleaseDispatchPayload → Job
  finalize_job : ReleaseFinalizePayload → Job
  rollback_job : ReleaseRollbackPayload → Job

pub record Tables : Type 0 where
  pub now : ℕ
  pub next_id : ℕ
  pub releases : List Release
  pub scopes : List ReleaseScope
  pub shards : List ReleaseShard
  pub history : List HistoryRow
  pub domain_tasks : List DomainTask
  pub agent_tasks : List AgentTask
  pub rollbacks : List RollbackRecord
  pub agents : List Agent
  pub host_groups : List HostGroup
  pub domains : List Domain
  pub versions : List TemplateVersion
  pub artifacts : List Artifact
  -- the tasks enqueued, oldest first
  pub queue : List Job

abbrev pub Db : Type 0 → Type 0
Db A = Exec Failure Tables A
