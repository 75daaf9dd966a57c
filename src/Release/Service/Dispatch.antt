-- ===== src/Release/Service/Dispatch.antt =====
-- internal/release/service.go: `DispatchShard`.
pub mod Selection
use Prim.Native.Nat.{zero, suc}
use domain_lifecycle_deploym.Base.{
  ℕ, ◌%◌, String, str_eq, Bool, true, false, Option, none, some, List, [], ◌∷◌, ◌++◌, map, ◌==◌,
  length, get_elem?, if◌then◌else◌, first,
}
use domain_lifecycle_deploym.Base.Exec.{
  pure, throw, lift, attempt, ignore, handle, on_option, for_each, ok, err, Res, ◌>>=◌, ◌>>◌,
}
use domain_lifecycle_deploym.Release.Tables.{
  Failure, no_artifact_id, bad_manifest, text, Release, DomainTask, Domain, Agent, HostGroup,
  Artifact, Manifest, TaskEnvelope, deploy_task, finalize_job, Db,
}
use domain_lifecycle_deploym.Release.Store.{found, get_by_id, set_started_at, update_shard_status}
use domain_lifecycle_deploym.Release.TaskStore.{
  list_by_shard, update_status, new_agent_task, create_agent_task, list_online_agents,
  list_online_by_host_group, get_host_group, get_domain, get_artifact,
}
use domain_lifecycle_deploym.Release.Reload.{DispatchItem, is_group, apply_reload_batching}
use domain_lifecycle_deploym.Release.Service.Transition.{system, enqueue, transition_release}

abbrev pub positive : Option ℕ → Option ℕ
positive none = none
positive (some zero) = none
positive (some (suc g)) = some (suc g)

-- `agents[i%len(agents)]`, if there is any agent.
unfoldable pub round_robin : ℕ → List Agent → Option Agent
round_robin i [] = none
round_robin i (a ∷ as') = get_elem? (a ∷ as') (i % length (a ∷ as'))

-- An agent of the task's host group, or else any agent that is online.
unfoldable pub select_agent : ℕ → DomainTask → List Agent → Db (Option Agent)
unfolding round_robin
select_agent i dt online =
    on_option (positive dt.host_group_id) (pure (round_robin i online)) (λ hg.
      handle (list_online_by_host_group hg) (λ _. pure (round_robin i online))
        (λ own. pure (if length own == 0 then round_robin i online else round_robin i own)))

unfoldable pub deploy_envelope : Release → Manifest → String → Domain → TaskEnvelope
deploy_envelope rel manifest url domain = record {
  type = "deploy_html";
  release_id = rel.release_id;
  artifact_url = url;
  manifest = some manifest;
  domains = domain.fqdn ∷ [];
  deploy_path = "/var/www";
  nginx_path = "/etc/nginx/conf.d";
  allow_reload = true;
  defer_reload = false;
  verify_enabled = true;
  target_release_id = "";
}

unfoldable pub item_for :
    Release → ℕ → Manifest → String → DomainTask → Domain → Agent → DispatchItem
unfolding deploy_envelope
item_for rel artifact_id manifest url dt domain agent = record {
  domain_task_id = dt.id;
  agent_db_id = agent.id;
  agent_id = agent.agent_id;
  host_group_id = dt.host_group_id;
  artifact_id = artifact_id;
  artifact_url = url;
  envelope = deploy_envelope rel manifest url domain;
}

module _ (rel : Release) (artifact_id : ℕ) (manifest : Manifest) (url : String)
    (online : List Agent) where
  -- One round of the loop over the tasks: an item if there is a domain and an agent. Without an
  -- agent the task has failed.
  unfoldable pub build_item : ℕ → DomainTask → Db (List DispatchItem) → Db (List DispatchItem)
  unfolding select_agent item_for
  build_item i dt rest =
      handle (get_domain dt.domain_id) (λ _. rest)
        (λ domain. do
          agent ← select_agent i dt online
          on_option agent
              (do ignore (update_status dt.id "failed" (some "no agent available")); rest)
              (λ a. do
                items ← rest
                pure (item_for rel artifact_id manifest url dt domain a ∷ items)))

  unfoldable pub build_items : ℕ → List DomainTask → Db (List DispatchItem)
  unfolding build_item
  build_items i [] = pure []
  build_items i (dt ∷ rest) = build_item i dt (build_items (suc i) rest)

-- The settings of each host group that the items name, fetched once.
unfoldable pub fetch_groups : List DispatchItem → List HostGroup → Db (List HostGroup)
fetch_groups [] seen = pure seen
fetch_groups (it ∷ rest) seen =
    on_option (positive it.host_group_id) (fetch_groups rest seen) (λ hg.
      on_option (first (is_group hg) seen)
        (handle (get_host_group hg) (λ _. fetch_groups rest seen)
          (λ g. on_option g (fetch_groups rest seen) (λ x. fetch_groups rest (x ∷ seen))))
        (λ _. fetch_groups rest seen))

unfoldable pub persist : Release → DispatchItem → Db Unit
persist rel it =
    handle
      (create_agent_task (
        new_agent_task (deploy_task rel.release_id it.domain_task_id it.agent_db_id)
          it.domain_task_id it.agent_db_id it.artifact_id (some it.artifact_url) it.envelope))
      (λ _. pure tt) (λ _. ignore (update_status it.domain_task_id "dispatched" none))

unfoldable pub start_executing : Release → ℕ → Db Unit
unfolding transition_release
start_executing rel id =
    if str_eq rel.status "ready"
    then (do
      transition_release id "ready" "executing" (text "dispatch started") system
      ignore (set_started_at id))
    else pure tt

-- `presign` is the object store: the URL of a manifest, or none when it fails.
module _ (presign : String → String → Option String) where
  abbrev pub artifact_url : Artifact → Manifest → String
  artifact_url art m = elim (presign m.project_slug art.checksum) [
    | none ↦ art.storage_uri
    | some url ↦ url
  ]

  unfoldable pub dispatch_tasks : Release → ℕ → ℕ → ℕ → Db Unit
  unfolding build_items fetch_groups persist
  dispatch_tasks rel id shard_id artifact_id = do
    art ← get_artifact artifact_id
    manifest ← lift (found bad_manifest art.manifest)
    tasks ← list_by_shard shard_id
    online ← list_online_agents
    items ← build_items rel artifact_id manifest (artifact_url art manifest) online 0 tasks
    groups ← fetch_groups items []
    for_each (persist rel) (apply_reload_batching items groups)
    ignore (update_shard_status shard_id "running")
    ignore (
        enqueue (
          finalize_job (record {
            release_id = id;
            shard_id = shard_id;
            retry_num = 0;
            is_rollback = false;
            rollback_record_id = 0;
          })))

  unfoldable pub dispatch_shard : ℕ → ℕ → Db Unit
  unfolding start_executing dispatch_tasks
  dispatch_shard id shard_id = do
    rel ← get_by_id id
    start_executing rel id
    ignore (update_shard_status shard_id "dispatching")
    on_option rel.artifact_id (throw no_artifact_id) (dispatch_tasks rel id shard_id)
