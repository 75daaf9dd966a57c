-- ===== src/Release/Effects/Writes.antt =====
-- The statements that insert or change rows outside `releases`, the insertion of a release, and the
-- transition, as steps of `Effect`.
use domain_lifecycle_deploym.Base.{
  ℕ, ◌≤◌, ◌≡◌, refl, ap, String, Bool, true, false, Option, List, [], ◌∷◌, map, arith, map-append,
}
use native.Mathlib.Nat.{le_refl, le-add_right}
use domain_lifecycle_deploym.Base.Exec.{Session, ok, writes}
use domain_lifecycle_deploym.Base.Follows.{
  Star, here, one, Follows, Follows-writes, Follows-query, Follows-committed, Follows-if,
  Follows-throw, Follows-transaction, Follows-ignore,
}
use domain_lifecycle_deploym.Release.Tables.{
  db_failed, Reason, Actor, Release, AgentTask, Tables, Job, ReleaseShard,
}
use domain_lifecycle_deploym.Release.Graph.{can_release_transition}
use domain_lifecycle_deploym.Release.Store.{
  create, transition_tx, create_scope, create_shard, update_shard_status, update_shard_counts,
  inserted, shard_inserted,
}
use domain_lifecycle_deploym.Release.TaskStore.{
  create_batch, update_status, create_agent_task, create_rollback, complete_rollback, task_inserted,
}
use domain_lifecycle_deploym.Release.Service.Transition.{enqueue, transition_release}
use domain_lifecycle_deploym.Release.Service.Create.{log_created}
use domain_lifecycle_deploym.Release.Effects.{
  status_pair, Effect, quiet, move, created, logged, transition_tx_ok, lookup-statuses,
  set-statuses,
}

-- A write to other tables.
elsewhere :
    (f : Tables → Tables)
    → ((t : Tables) → (f t).releases ≡ t.releases)
    → ((t : Tables) → (f t).history ≡ t.history)
    → ((t : Tables) → t.next_id ≤ (f t).next_id)
    → Follows Effect (writes db_failed f)
elsewhere f h k l =
    Follows-writes db_failed f (λ t. one (quiet (ap (map status_pair) (h t)) (k t) (l t)))

pub create_scope-Effect : (r d : ℕ) (g : Option ℕ) → Follows Effect (create_scope r d g)
unfolding create_scope
create_scope-Effect r d g = elsewhere _ (λ t. refl) (λ t. refl) (λ t. le_refl t.next_id)

pub update_shard_status-Effect : (id : ℕ) (s : String) → Follows Effect (update_shard_status id s)
unfolding update_shard_status
update_shard_status-Effect id s = elsewhere _ (λ t. refl) (λ t. refl) (λ t. le_refl t.next_id)

pub update_shard_counts-Effect : (id n m : ℕ) → Follows Effect (update_shard_counts id n m)
unfolding update_shard_counts
update_shard_counts-Effect id n m = elsewhere _ (λ t. refl) (λ t. refl) (λ t. le_refl t.next_id)

pub update_status-Effect :
    (id : ℕ) (s : String) (e : Option String) → Follows Effect (update_status id s e)
unfolding update_status
update_status-Effect id s e = elsewhere _ (λ t. refl) (λ t. refl) (λ t. le_refl t.next_id)

pub complete_rollback-Effect : (id : ℕ) (b : Bool) → Follows Effect (complete_rollback id b)
unfolding complete_rollback
complete_rollback-Effect id b = elsewhere _ (λ t. refl) (λ t. refl) (λ t. le_refl t.next_id)

pub enqueue-Effect : (j : Job) → Follows Effect (enqueue j)
unfolding enqueue
enqueue-Effect j = elsewhere _ (λ t. refl) (λ t. refl) (λ t. le_refl t.next_id)

pub create_batch-Effect :
    (r s : ℕ) (xs : List (ℕ × Option ℕ)) → Follows Effect (create_batch r s xs)
unfolding create_batch
create_batch-Effect r s [] = record { at = λ d. here }
create_batch-Effect r s (x ∷ xs) = elsewhere _ (λ t. refl) (λ t. refl) (λ t. le-add_right _ _)

pub create_rollback-Effect : (r p a : ℕ) (s : String) → Follows Effect (create_rollback r p a s)
unfolding create_rollback
create_rollback-Effect r p a s = Follows-query _ _ (λ t. one (quiet refl refl (omega arith)))

shard_inserted-Effect :
    (s : ReleaseShard) (t : Tables) (b : Bool) → Star Effect t (shard_inserted s t b).1
shard_inserted-Effect s t true = here
shard_inserted-Effect s t false = one (quiet refl refl (omega arith))

pub create_shard-Effect : (r i n : ℕ) → Follows Effect (create_shard r i n)
unfolding create_shard
create_shard-Effect r i n = Follows-query _ _ (λ t. shard_inserted-Effect _ t _)

task_inserted-Effect :
    (a : AgentTask) (t : Tables) (b : Bool) → Star Effect t (task_inserted a t b).1
task_inserted-Effect a t true = here
task_inserted-Effect a t false = one (quiet refl refl (omega arith))

pub create_agent_task-Effect : (a : AgentTask) → Follows Effect (create_agent_task a)
unfolding create_agent_task
create_agent_task-Effect a = Follows-query _ _ (λ t. task_inserted-Effect a t _)

inserted-Effect :
    (r : Release) (t : Tables) (b : Bool) → r.status ≡ "pending" → Star Effect t (inserted r t b).1
inserted-Effect r t true h = here
inserted-Effect r t false h = one (
    created (rw (map-append status_pair t.releases (record r { id = t.next_id } ∷ []), h)) refl
      refl)

pub create-Effect : (r : Release) → r.status ≡ "pending" → Follows Effect (create r)
unfolding create
create-Effect r h = Follows-query _ _ (λ t. inserted-Effect r t _ h)

pub transition_tx-Effect :
    (id : ℕ) (from to : String) (reason : Reason) (by : Actor) (d : Session Tables) (u : Unit {0})
    → can_release_transition from to ≡ true
    → (transition_tx id from to reason by d).0 ≡ ok u
    → Star Effect d.tables (transition_tx id from to reason by d).1.tables
transition_tx-Effect id from to reason by d u c h =
    let (r, e, s, after) = transition_tx_ok id from to reason by d u h in
    rw after (
      one (
        move id from to reason by (ground (arith, lookup-statuses id d.tables.releases)) c
          (set-statuses id to d.tables.releases) refl refl))

-- A transition is one edge of the graph with its audit row, or nothing.
pub transition_release-Effect :
    (id : ℕ) (from to : String) (reason : Reason) (by : Actor)
    → Follows Effect (transition_release id from to reason by)
unfolding transition_release
transition_release-Effect id from to reason by =
    Follows-if (can_release_transition from to) _ _
      (λ c. Follows-committed _ _ _ (λ d u. transition_tx-Effect id from to reason by d u c))
      (λ _. Follows-throw _)

pub log_created-Effect : (id : ℕ) (by : Option ℕ) → Follows Effect (log_created id by)
unfolding log_created
log_created-Effect id by =
    Follows-ignore _
      (Follows-transaction _ _ _ (Follows-writes _ _ (λ t. one (logged id _ _ refl refl refl))))

pub ruleset write_effects = (
  create_scope-Effect, update_shard_status-Effect, update_shard_counts-Effect, update_status-Effect,
  complete_rollback-Effect, enqueue-Effect, create_batch-Effect, create_rollback-Effect,
  create_shard-Effect, create_agent_task-Effect, transition_release-Effect, log_created-Effect,
)
