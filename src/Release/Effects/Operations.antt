-- ===== src/Release/Effects/Operations.antt =====
-- Each operation of the release service follows `Effect`, whatever its arguments and whatever fails.
use domain_lifecycle_deploym.Base.{ℕ, suc, String, Bool, Option, List, [], ◌∷◌, refl}
use domain_lifecycle_deploym.Base.Follows.{Follows, follows_rules}
use domain_lifecycle_deploym.Release.Tables.{
  Failure, Reason, Actor, Release, ReleaseScope, DomainTask, Agent, HostGroup, Manifest, Db,
  ReleaseFinalizePayload, AgentTask,
}
use domain_lifecycle_deploym.Release.TaskStore.{AgentTaskStats}
use domain_lifecycle_deploym.Release.Planner.{DomainPlanInput, PlannedShard}
use domain_lifecycle_deploym.Release.Reload.{DispatchItem}
use domain_lifecycle_deploym.Release.Service.Transition.{pause, resume, cancel}
use domain_lifecycle_deploym.Release.Service.Create.{
  CreateInput, check_next, check_active, resolve_scope, insert_and_plan, create_release,
}
use domain_lifecycle_deploym.Release.Service.Plan.{
  fail_planning, keep_active, still_active, create_planned, create_shards, plan_active, plan,
  mark_ready,
}
use domain_lifecycle_deploym.Release.Service.Dispatch.{
  select_agent, build_item, build_items, fetch_groups, persist, start_executing, dispatch_tasks,
  dispatch_shard,
}
use domain_lifecycle_deploym.Release.Service.Finalize.{
  all_shards, count_release, complete_if, finalize_rollback, after_index, next_shard,
  finish_release, finalize_shard, finalize_legacy, stats_for, conclude, finalize,
}
use domain_lifecycle_deploym.Release.Service.Rollback.{
  start_rollback, rollback, give_up, rollback_agents, rollback_on, send_rollback, execute_rollback,
}
use domain_lifecycle_deploym.Release.Effects.{Effect}
use domain_lifecycle_deploym.Release.Effects.Statements.{
  set_artifact_id-Effect, set_totals-Effect, set_started_at-Effect, set_ended_at-Effect,
  increment_success_by-Effect, increment_failure_by-Effect, read_effects,
}
use domain_lifecycle_deploym.Release.Effects.Writes.{create-Effect, write_effects}

ruleset all_effects = (
  follows_rules, read_effects, write_effects, set_artifact_id-Effect, set_totals-Effect,
  set_started_at-Effect, set_ended_at-Effect, increment_success_by-Effect,
  increment_failure_by-Effect,
)

pub cancel-Effect : (id : ℕ) (reason : Reason) (by : Actor) → Follows Effect (cancel id reason by)
unfolding cancel
cancel-Effect id reason by = search all_effects

pub pause-Effect : (id : ℕ) (reason : Reason) (by : Actor) → Follows Effect (pause id reason by)
unfolding pause
pause-Effect id reason by = search all_effects

pub resume-Effect : (id : ℕ) (by : Actor) → Follows Effect (resume id by)
unfolding resume
resume-Effect id by = search all_effects

check_next-Effect :
    (id : ℕ) (rest : Db (List ℕ)) → Follows Effect rest → Follows Effect (check_next id rest)
unfolding check_next
check_next-Effect id rest h = search all_effects depth 8

check_active-Effect : (ids : List ℕ) → Follows Effect (check_active ids)
unfolding check_active
check_active-Effect [] = search all_effects
check_active-Effect (id ∷ ids) = check_next-Effect id (check_active ids) (check_active-Effect ids)

resolve_scope-Effect : (i : CreateInput) → Follows Effect (resolve_scope i)
unfolding resolve_scope
resolve_scope-Effect i = search (all_effects, check_active-Effect) depth 8

insert_and_plan-Effect :
    (digest : String → ℕ → ℕ → String) (i : CreateInput) (nanos : ℕ) (ids : List ℕ)
    → Follows Effect (insert_and_plan digest i nanos ids)
unfolding insert_and_plan
insert_and_plan-Effect digest i nanos ids = search (all_effects, create-Effect _ refl) depth 10

pub create_release-Effect :
    (digest : String → ℕ → ℕ → String) (i : CreateInput) (nanos : ℕ)
    → Follows Effect (create_release digest i nanos)
unfolding create_release
create_release-Effect digest i nanos =
    search (all_effects, resolve_scope-Effect, insert_and_plan-Effect) depth 8

fail_planning-Effect :
    {A : Type 0} (id : ℕ) (why : String) (e : Failure)
    → Follows Effect (fail_planning {A = A} id why e)
unfolding fail_planning
fail_planning-Effect id why e = search all_effects

keep_active-Effect :
    (s : ReleaseScope) (rest : Db (List DomainPlanInput))
    → Follows Effect rest
    → Follows Effect (keep_active s rest)
unfolding keep_active
keep_active-Effect s rest h = search all_effects depth 8

still_active-Effect : (ss : List ReleaseScope) → Follows Effect (still_active ss)
unfolding still_active
still_active-Effect [] = search all_effects
still_active-Effect (s ∷ ss) = keep_active-Effect s (still_active ss) (still_active-Effect ss)

create_planned-Effect :
    (id : ℕ) (infos : List DomainPlanInput) (p : PlannedShard) (rest : Db (List ℕ))
    → Follows Effect rest
    → Follows Effect (create_planned id infos p rest)
unfolding create_planned
create_planned-Effect id infos p rest h = search (all_effects, fail_planning-Effect) depth 8

create_shards-Effect :
    (id : ℕ) (infos : List DomainPlanInput) (ps : List PlannedShard)
    → Follows Effect (create_shards id infos ps)
unfolding create_shards
create_shards-Effect id infos [] = search all_effects
create_shards-Effect id infos (p ∷ ps) =
    create_planned-Effect id infos p (create_shards id infos ps) (create_shards-Effect id infos ps)

plan_active-Effect :
    (rel : Release) (id : ℕ) (strategy : String) (valid : List DomainPlanInput)
    → Follows Effect (plan_active rel id strategy valid)
unfolding plan_active
plan_active-Effect rel id strategy valid =
    search (all_effects, fail_planning-Effect, create_shards-Effect) depth 8

pub plan-Effect : (id : ℕ) (strategy : String) → Follows Effect (plan id strategy)
unfolding plan
plan-Effect id strategy =
    search (all_effects, fail_planning-Effect, still_active-Effect, plan_active-Effect) depth 10

pub mark_ready-Effect : (id artifact : ℕ) → Follows Effect (mark_ready id artifact)
unfolding mark_ready
mark_ready-Effect id artifact = search all_effects depth 8

select_agent-Effect :
    (i : ℕ) (dt : DomainTask) (online : List Agent) → Follows Effect (select_agent i dt online)
unfolding select_agent
select_agent-Effect i dt online = search all_effects

build_item-Effect :
    (rel : Release) (artifact : ℕ) (m : Manifest) (url : String) (online : List Agent) (i : ℕ)
    (t : DomainTask) (rest : Db (List DispatchItem))
    → Follows Effect rest
    → Follows Effect (build_item rel artifact m url online i t rest)
unfolding build_item
build_item-Effect rel artifact m url online i t rest h =
    search (all_effects, select_agent-Effect) depth 8

build_items-Effect :
    (rel : Release) (artifact : ℕ) (m : Manifest) (url : String) (online : List Agent) (i : ℕ)
    (ts : List DomainTask)
    → Follows Effect (build_items rel artifact m url online i ts)
unfolding build_items
build_items-Effect rel artifact m url online i [] = search all_effects
build_items-Effect rel artifact m url online i (t ∷ ts) =
    build_item-Effect rel artifact m url online i t
      (build_items rel artifact m url online (suc i) ts)
      (build_items-Effect rel artifact m url online (suc i) ts)

fetch_groups-Effect :
    (its : List DispatchItem) (seen : List HostGroup) → Follows Effect (fetch_groups its seen)
unfolding fetch_groups
fetch_groups-Effect [] seen = search all_effects
fetch_groups-Effect (it ∷ its) seen = search (all_effects, fetch_groups-Effect its) depth 8

persist-Effect : (rel : Release) (it : DispatchItem) → Follows Effect (persist rel it)
unfolding persist
persist-Effect rel it = search all_effects

start_executing-Effect : (rel : Release) (id : ℕ) → Follows Effect (start_executing rel id)
unfolding start_executing
start_executing-Effect rel id = search all_effects

dispatch_tasks-Effect :
    (presign : String → String → Option String) (rel : Release) (id shard artifact : ℕ)
    → Follows Effect (dispatch_tasks presign rel id shard artifact)
unfolding dispatch_tasks
dispatch_tasks-Effect presign rel id shard artifact =
    search (all_effects, build_items-Effect, fetch_groups-Effect, persist-Effect) depth 14

pub dispatch_shard-Effect :
    (presign : String → String → Option String) (id shard : ℕ)
    → Follows Effect (dispatch_shard presign id shard)
unfolding dispatch_shard
dispatch_shard-Effect presign id shard =
    search (all_effects, start_executing-Effect, dispatch_tasks-Effect) depth 8

count_release-Effect : (id : ℕ) (s : AgentTaskStats) → Follows Effect (count_release id s)
unfolding count_release
count_release-Effect id s = search all_effects

all_shards-Effect : (id : ℕ) → Follows Effect (all_shards id)
unfolding all_shards
all_shards-Effect id = search all_effects

complete_if-Effect : (id : ℕ) (b : Bool) → Follows Effect (complete_if id b)
unfolding complete_if
complete_if-Effect id b = search all_effects

ruleset finalize_parts = (all_effects, count_release-Effect, all_shards-Effect, complete_if-Effect)

finalize_rollback-Effect :
    (id : ℕ) (s : AgentTaskStats) (n r : ℕ) → Follows Effect (finalize_rollback id s n r)
unfolding finalize_rollback
finalize_rollback-Effect id s n r = search finalize_parts depth 10

after_index-Effect : (id : ℕ) → Follows Effect (after_index id)
unfolding after_index
after_index-Effect id = search all_effects

next_shard-Effect : (id n : ℕ) → Follows Effect (next_shard id n)
unfolding next_shard
next_shard-Effect id n = search all_effects

finish_release-Effect : (id : ℕ) → Follows Effect (finish_release id)
unfolding finish_release
finish_release-Effect id = search all_effects

finalize_shard-Effect :
    (id shard : ℕ) (s : AgentTaskStats) (n : ℕ) → Follows Effect (finalize_shard id shard s n)
unfolding finalize_shard
finalize_shard-Effect id shard s n =
    search (finalize_parts, after_index-Effect, next_shard-Effect, finish_release-Effect) depth 10

finalize_legacy-Effect :
    (id : ℕ) (s : AgentTaskStats) (n : ℕ) → Follows Effect (finalize_legacy id s n)
unfolding finalize_legacy
finalize_legacy-Effect id s n = search finalize_parts depth 10

stats_for-Effect : (id shard : ℕ) (b : Bool) → Follows Effect (stats_for id shard b)
unfolding stats_for
stats_for-Effect id shard b = search all_effects

conclude-Effect : (p : ReleaseFinalizePayload) (s : AgentTaskStats) → Follows Effect (conclude p s)
unfolding conclude
conclude-Effect p s =
    search (all_effects, finalize_rollback-Effect, finalize_shard-Effect, finalize_legacy-Effect)

pub finalize-Effect : (p : ReleaseFinalizePayload) → Follows Effect (finalize p)
unfolding finalize
finalize-Effect p = search (all_effects, stats_for-Effect, conclude-Effect) depth 8

start_rollback-Effect :
    (rel : Release) (id p a : ℕ) (reason : String) (by : Actor)
    → Follows Effect (start_rollback rel id p a reason by)
unfolding start_rollback
start_rollback-Effect rel id p a reason by = search all_effects depth 8

pub rollback-Effect :
    (id : ℕ) (reason : String) (by : Actor) → Follows Effect (rollback id reason by)
unfolding rollback
rollback-Effect id reason by = search (all_effects, start_rollback-Effect) depth 8

give_up-Effect :
    {A : Type 0} (id : ℕ) (by : Actor) (r : ℕ) → Follows Effect (give_up {A = A} id by r)
unfolding give_up
give_up-Effect id by r = search (all_effects, complete_if-Effect)

rollback_agents-Effect :
    (id : ℕ) (by : Actor) (r : ℕ) (ts : List AgentTask)
    → Follows Effect (rollback_agents id by r ts)
unfolding rollback_agents
rollback_agents-Effect id by r ts = search (all_effects, give_up-Effect) depth 8

rollback_on-Effect : (rel : Release) (a d x : ℕ) → Follows Effect (rollback_on rel a d x)
unfolding rollback_on
rollback_on-Effect rel a d x = search all_effects

send_rollback-Effect :
    (rel : Release) (id a : ℕ) (by : Actor) (r : ℕ) → Follows Effect (send_rollback rel id a by r)
unfolding send_rollback
send_rollback-Effect rel id a by r =
    search (all_effects, rollback_agents-Effect, rollback_on-Effect) depth 12

pub execute_rollback-Effect :
    (id a : ℕ) (by : Actor) (r : ℕ) → Follows Effect (execute_rollback id a by r)
unfolding execute_rollback
execute_rollback-Effect id a by r = search (all_effects, send_rollback-Effect) depth 8
