-- ===== src/Release/Service/Plan.antt =====
-- internal/release/service.go: `Plan` and `MarkReady`.
use Prim.Native.String.{slice}
use domain_lifecycle_deploym.Base.{
  ℕ, String, str_eq, Option, none, some, List, [], ◌∷◌, ◌++◌, map, ◌==◌, length, if◌then◌else◌,
}
use domain_lifecycle_deploym.Base.Exec.{pure, throw, ignore, handle, on_option, ◌>>=◌, ◌>>◌}
use domain_lifecycle_deploym.Release.Tables.{
  Failure, no_domains_in_scope, text, Release, ReleaseScope, Domain, build_job, dispatch_job, Db,
}
use domain_lifecycle_deploym.Release.Store.{
  get_by_id, set_artifact_id, set_totals, list_scopes, create_shard, list_shards,
}
use domain_lifecycle_deploym.Release.TaskStore.{create_batch, get_domain}
use domain_lifecycle_deploym.Release.Planner.{DomainPlanInput, PlannedShard, plan_shards}
use domain_lifecycle_deploym.Release.Service.Transition.{system, enqueue, transition_release}
use domain_lifecycle_deploym.Release.Service.Create.{or_default}

-- `_ = s.TransitionRelease(…, "planning", "failed", …)`, then the error.
unfoldable pub fail_planning : {A : Type 0} → ℕ → String → Failure → Db A
fail_planning id why e = do
  handle (transition_release id "planning" "failed" (text why) system) (λ _. throw e) (λ _. throw e)

abbrev pub input_of : ReleaseScope → Domain → DomainPlanInput
input_of s d = record { id = d.id; host_group_id = s.host_group_id }

-- One round of the loop over the scopes.
unfoldable pub keep_active : ReleaseScope → Db (List DomainPlanInput) → Db (List DomainPlanInput)
keep_active s rest =
    handle (get_domain s.domain_id) (λ _. rest)
      (λ d. do
        others ← rest
        pure (if str_eq d.lifecycle_state "active" then input_of s d ∷ others else others))

-- The scoped domains that still exist and are still active; the others are logged and left out.
unfoldable pub still_active : List ReleaseScope → Db (List DomainPlanInput)
unfolding keep_active
still_active [] = pure []
still_active (s ∷ ss) = keep_active s (still_active ss)

-- `domainInfoMap[id].HostGroupID`: the last entry written for the domain.
unfoldable pub info_group : ℕ → List DomainPlanInput → Option ℕ → Option ℕ
info_group id [] acc = acc
info_group id (d ∷ ds) acc = info_group id ds (if d.id == id then d.host_group_id else acc)

-- One round of the loop over the planned shards: a shard row and its domain tasks.
unfoldable pub create_planned : ℕ → List DomainPlanInput → PlannedShard → Db (List ℕ) → Db (List ℕ)
unfolding info_group fail_planning
create_planned id infos p rest =
    handle (create_shard id p.shard_index (length p.domain_ids))
      (λ e. fail_planning id "create shard failed" e)
      (λ shard.
        handle (create_batch id shard.id (map (λ d. (d, info_group d infos none)) p.domain_ids))
          (λ e. fail_planning id "create domain tasks failed" e)
          (λ _. do ids ← rest; pure (p.domain_ids ++ ids)))

-- The domain IDs of all shards, in the order of the tasks.
unfoldable pub create_shards : ℕ → List DomainPlanInput → List PlannedShard → Db (List ℕ)
unfolding create_planned
create_shards id infos [] = pure []
create_shards id infos (p ∷ ps) = create_planned id infos p (create_shards id infos ps)

unfoldable pub plan_active : Release → ℕ → String → List DomainPlanInput → Db Unit
unfolding create_shards info_group
plan_active rel id strategy valid = do
  let planned = plan_shards (or_default "by_host_group" strategy) valid
  ids ← create_shards id valid planned
  ignore (set_totals id (length ids) (length planned))
  handle
      (enqueue (
        build_job (record {
          project_id = rel.project_id;
          project_slug = slice rel.release_id 0 8;
          template_version_id = rel.template_version_id;
          release_id = id;
          built_by = rel.created_by;
          domain_ids = ids;
        })))
      (λ e. fail_planning id "enqueue build failed" e) (λ _. pure tt)

unfoldable pub plan : ℕ → String → Db Unit
unfolding fail_planning still_active plan_active
plan id strategy = do
  rel ← get_by_id id
  transition_release id "pending" "planning" (text "plan started") system
  scopes ← list_scopes id
  if length scopes == 0 then fail_planning id "no domains in scope" no_domains_in_scope else (do
    valid ← still_active scopes
    if length valid == 0
        then fail_planning id "no active domains remain" no_domains_in_scope
        else plan_active rel id strategy valid)

abbrev pub head_of : {A : Type 0} → List A → Option A
head_of [] = none
head_of (x ∷ xs) = some x

-- Called when the artifact is built: only the first shard is dispatched.
unfoldable pub mark_ready : ℕ → ℕ → Db Unit
unfolding enqueue transition_release set_artifact_id list_shards
mark_ready id artifact_id = do
  set_artifact_id id artifact_id
  transition_release id "planning" "ready" (text "artifact built") system
  shards ← list_shards id
  on_option (head_of shards) (pure tt)
      (λ s. ignore (enqueue (dispatch_job (record { release_id = id; shard_id = s.id }))))
