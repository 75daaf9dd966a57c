-- ===== src/Release/Service/Create.antt =====
-- internal/release/service.go: `Create`.
use domain_lifecycle_deploym.Base.{
  ℕ, String, str_eq, Option, none, some, List, [], ◌∷◌, map, ◌==◌, length, if◌then◌else◌,
}
use domain_lifecycle_deploym.Base.Exec.{
  pure, throw, writes, transaction, ignore, for_each, on_option, ◌>>=◌, ◌>>◌,
}
use domain_lifecycle_deploym.Release.Tables.{
  db_failed, domain_not_active, no_domains_in_scope, template_not_published, text, Actor, user,
  Release, plan_job, Db,
}
use domain_lifecycle_deploym.Release.Store.{new_release, create, create_scope, insert_history}
use domain_lifecycle_deploym.Release.TaskStore.{get_domain, list_active_by_project, get_version}
use domain_lifecycle_deploym.Release.Service.Transition.{system, enqueue}

pub record CreateInput : Type 0 where
  pub project_id : ℕ
  pub project_slug : String
  pub template_version_id : ℕ
  pub release_type : String
  pub trigger_source : String
  pub shard_strategy : String
  pub description : Option String
  pub domain_ids : List ℕ
  pub created_by : Option ℕ

abbrev pub or_default : String → String → String
or_default d s = if str_eq s "" then d else s

abbrev pub triggered_by_str : Option ℕ → Actor
triggered_by_str none = system
triggered_by_str (some id) = user id

-- One round of the loop over the domains named; `rest` is the rest of the loop.
unfoldable pub check_next : ℕ → Db (List ℕ) → Db (List ℕ)
check_next id rest = do
  d ← get_domain id
  if str_eq d.lifecycle_state "active"
      then (do ids ← rest; pure (id ∷ ids))
      else throw domain_not_active

-- Every domain that the caller names must exist and be active.
unfoldable pub check_active : List ℕ → Db (List ℕ)
unfolding check_next
check_active [] = pure []
check_active (id ∷ ids) = check_next id (check_active ids)

-- The domains named, or all active domains of the project.
unfoldable pub resolve_scope : CreateInput → Db (List ℕ)
unfolding check_active
resolve_scope i =
    if length i.domain_ids == 0
    then (do ds ← list_active_by_project i.project_id; pure (map (λ d. d.id) ds))
    else check_active i.domain_ids

-- The first history row, with a NULL `from_state`; its errors are dropped.
unfoldable pub log_created : ℕ → Option ℕ → Db Unit
log_created id by = ignore (
    transaction db_failed db_failed (
      writes db_failed (
        insert_history (record {
          release_id = id;
          from_state = none;
          to_state = "pending";
          reason = text "release created";
          triggered_by = triggered_by_str by;
        }))))

-- `digest` is `generateReleaseID`, a hash of the slug, the version and the time.
module _ (digest : String → ℕ → ℕ → String) where
  unfoldable pub insert_and_plan : CreateInput → ℕ → List ℕ → Db Release
  insert_and_plan i nanos ids = do
    rel ← create (
        new_release (digest i.project_slug i.template_version_id nanos) i.project_id
          i.template_version_id (or_default "html" i.release_type)
          (or_default "ui" i.trigger_source) i.description i.created_by)
    for_each (λ id. ignore (create_scope rel.id id none)) ids
    log_created rel.id i.created_by
    ignore (
        enqueue (
          plan_job (record {
            release_id = rel.id;
            domain_ids = ids;
            shard_strategy = or_default "by_host_group" i.shard_strategy;
          })))
    pure rel

  unfoldable pub create_release : CreateInput → ℕ → Db Release
  unfolding insert_and_plan resolve_scope log_created
  create_release i nanos = do
    ver ← get_version i.template_version_id
    on_option ver.published_at (throw template_not_published) (λ _. do
      ids ← resolve_scope i
      if length ids == 0 then throw no_domains_in_scope else insert_and_plan i nanos ids)
