-- ===== src/Release/Effects/Statements.antt =====
-- Each statement of the stores as steps of `Effect`.
use domain_lifecycle_deploym.Base.{ℕ, ◌≤◌, ◌≡◌, refl, ◌==◌, map-update_where}
use native.Mathlib.Nat.{le_refl}
use domain_lifecycle_deploym.Base.Exec.{writes}
use domain_lifecycle_deploym.Base.Follows.{
  here, one, Follows, Follows-reads, Follows-writes, Follows-if,
}
use domain_lifecycle_deploym.Release.Tables.{db_failed, Release, Tables}
use domain_lifecycle_deploym.Release.Store.{
  is_release, set_release, get_by_id, set_artifact_id, set_totals, set_started_at, set_ended_at,
  increment_success_by, increment_failure_by, get_last_succeeded, list_scopes, list_shards,
  get_shard_by_id, get_next_pending_shard,
}
use domain_lifecycle_deploym.Release.TaskStore.{
  list_by_release, list_by_shard, list_agent_tasks_by_release, get_agent_task_stats_by_release,
  get_agent_task_stats_by_shard, list_online_agents, list_online_by_host_group, get_host_group,
  get_domain, list_active_by_project, get_version, get_artifact,
}
use domain_lifecycle_deploym.Release.Effects.{statuses, status_pair, Effect, quiet}

-- A write that leaves the statuses and the audit trail alone.
quiet_write :
    (f : Tables → Tables)
    → ((t : Tables) → statuses (f t) ≡ statuses t)
    → ((t : Tables) → (f t).history ≡ t.history)
    → ((t : Tables) → t.next_id ≤ (f t).next_id)
    → Follows Effect (writes db_failed f)
quiet_write f h k l = Follows-writes db_failed f (λ t. one (quiet (h t) (k t) (l t)))

-- An update of columns of `releases` other than the key and the status.
quiet_update :
    (id : ℕ) (f : Tables → Release → Release)
    → ((t : Tables) (r : Release) → status_pair (f t r) ≡ status_pair r)
    → Follows Effect (writes db_failed (λ t. set_release id (f t) t))
quiet_update id f h =
    quiet_write (λ t. set_release id (f t) t)
      (λ t. map-update_where status_pair (is_release id) (f t) t.releases (h t)) (λ t. refl)
      (λ t. le_refl t.next_id)

pub set_artifact_id-Effect : (id artifact : ℕ) → Follows Effect (set_artifact_id id artifact)
unfolding set_artifact_id
set_artifact_id-Effect id artifact = quiet_update id _ (λ t r. refl)

pub set_totals-Effect : (id n m : ℕ) → Follows Effect (set_totals id n m)
unfolding set_totals
set_totals-Effect id n m = quiet_update id _ (λ t r. refl)

pub set_started_at-Effect : (id : ℕ) → Follows Effect (set_started_at id)
unfolding set_started_at
set_started_at-Effect id = quiet_update id _ (λ t r. refl)

pub set_ended_at-Effect : (id : ℕ) → Follows Effect (set_ended_at id)
unfolding set_ended_at
set_ended_at-Effect id = quiet_update id _ (λ t r. refl)

pub increment_success_by-Effect : (id n : ℕ) → Follows Effect (increment_success_by id n)
unfolding increment_success_by
increment_success_by-Effect id n =
    Follows-if (n == 0) _ _ (λ e. record { at = λ d. here }) (λ e. quiet_update id _ (λ t r. refl))

pub increment_failure_by-Effect : (id n : ℕ) → Follows Effect (increment_failure_by id n)
unfolding increment_failure_by
increment_failure_by-Effect id n =
    Follows-if (n == 0) _ _ (λ e. record { at = λ d. here }) (λ e. quiet_update id _ (λ t r. refl))

pub get_by_id-Effect : (id : ℕ) → Follows Effect (get_by_id id)
unfolding get_by_id
get_by_id-Effect id = Follows-reads _ _

pub get_last_succeeded-Effect : (p b : ℕ) → Follows Effect (get_last_succeeded p b)
unfolding get_last_succeeded
get_last_succeeded-Effect p b = Follows-reads _ _

pub list_scopes-Effect : (id : ℕ) → Follows Effect (list_scopes id)
unfolding list_scopes
list_scopes-Effect id = Follows-reads _ _

pub list_shards-Effect : (id : ℕ) → Follows Effect (list_shards id)
unfolding list_shards
list_shards-Effect id = Follows-reads _ _

pub get_shard_by_id-Effect : (id : ℕ) → Follows Effect (get_shard_by_id id)
unfolding get_shard_by_id
get_shard_by_id-Effect id = Follows-reads _ _

pub get_next_pending_shard-Effect : (r i : ℕ) → Follows Effect (get_next_pending_shard r i)
unfolding get_next_pending_shard
get_next_pending_shard-Effect r i = Follows-reads _ _

pub list_by_release-Effect : (id : ℕ) → Follows Effect (list_by_release id)
unfolding list_by_release
list_by_release-Effect id = Follows-reads _ _

pub list_by_shard-Effect : (id : ℕ) → Follows Effect (list_by_shard id)
unfolding list_by_shard
list_by_shard-Effect id = Follows-reads _ _

pub list_agent_tasks-Effect : (id : ℕ) → Follows Effect (list_agent_tasks_by_release id)
unfolding list_agent_tasks_by_release
list_agent_tasks-Effect id = Follows-reads _ _

pub stats_by_release-Effect : (id : ℕ) → Follows Effect (get_agent_task_stats_by_release id)
unfolding get_agent_task_stats_by_release
stats_by_release-Effect id = Follows-reads _ _

pub stats_by_shard-Effect : (id : ℕ) → Follows Effect (get_agent_task_stats_by_shard id)
unfolding get_agent_task_stats_by_shard
stats_by_shard-Effect id = Follows-reads _ _

pub list_online_agents-Effect : Follows Effect list_online_agents
unfolding list_online_agents
list_online_agents-Effect = Follows-reads _ _

pub list_online_by_host_group-Effect : (hg : ℕ) → Follows Effect (list_online_by_host_group hg)
unfolding list_online_by_host_group
list_online_by_host_group-Effect hg = Follows-reads _ _

pub get_host_group-Effect : (id : ℕ) → Follows Effect (get_host_group id)
unfolding get_host_group
get_host_group-Effect id = Follows-reads _ _

pub get_domain-Effect : (id : ℕ) → Follows Effect (get_domain id)
unfolding get_domain
get_domain-Effect id = Follows-reads _ _

pub list_active_by_project-Effect : (p : ℕ) → Follows Effect (list_active_by_project p)
unfolding list_active_by_project
list_active_by_project-Effect p = Follows-reads _ _

pub get_version-Effect : (id : ℕ) → Follows Effect (get_version id)
unfolding get_version
get_version-Effect id = Follows-reads _ _

pub get_artifact-Effect : (id : ℕ) → Follows Effect (get_artifact id)
unfolding get_artifact
get_artifact-Effect id = Follows-reads _ _

pub ruleset read_effects = (
  get_by_id-Effect, get_last_succeeded-Effect, list_scopes-Effect, list_shards-Effect,
  get_shard_by_id-Effect, get_next_pending_shard-Effect, list_by_release-Effect,
  list_by_shard-Effect, list_agent_tasks-Effect, stats_by_release-Effect, stats_by_shard-Effect,
  list_online_agents-Effect, list_online_by_host_group-Effect, get_host_group-Effect,
  get_domain-Effect, list_active_by_project-Effect, get_version-Effect, get_artifact-Effect,
)
