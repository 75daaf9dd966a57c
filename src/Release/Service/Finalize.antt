-- ===== src/Release/Service/Finalize.antt =====
-- internal/release/service.go: `Finalize`, the poll that ends a shard, a release or a rollback.
pub mod Polling
pub mod Statuses
pub mod Outcome
pub mod Limits
use Prim.Native.Nat.{suc}
use domain_lifecycle_deploym.Base.{
  ℕ, ◌+◌, String, str_eq, Bool, true, false, not, ◌&&◌, ◌||◌, Option, none, some, List, [], ◌∷◌,
  ◌==◌, ltb, leb, if◌then◌else◌,
}
use domain_lifecycle_deploym.Base.Exec.{
  pure, throw, attempt, ignore, handle, on_option, for_each, ◌>>=◌, ◌>>◌,
}
use domain_lifecycle_deploym.Release.Tables.{
  Reason, text, task_counts, Release, ReleaseShard, dispatch_job, finalize_job,
  ReleaseFinalizePayload, Db,
}
use domain_lifecycle_deploym.Release.Store.{
  get_by_id, set_ended_at, increment_success_by, increment_failure_by, list_shards, get_shard_by_id,
  update_shard_status, update_shard_counts, get_next_pending_shard,
}
use domain_lifecycle_deploym.Release.TaskStore.{
  AgentTaskStats, get_agent_task_stats_by_release, get_agent_task_stats_by_shard, complete_rollback,
}
use domain_lifecycle_deploym.Release.Service.Transition.{system, enqueue, transition_release}

abbrev pub max_finalize_retries : ℕ
max_finalize_retries = 360

abbrev pub in_progress : AgentTaskStats → ℕ
in_progress s = s.pending + s.claimed + s.running

unfoldable pub has_failed : AgentTaskStats → ℕ → Bool
has_failed s retry_num =
    ltb 0 s.failed
    || (ltb 0 s.timeout || (ltb 0 (in_progress s) && leb max_finalize_retries retry_num))

unfoldable pub still_running : AgentTaskStats → ℕ → Bool
still_running s retry_num = ltb 0 (in_progress s) && ltb retry_num max_finalize_retries

abbrev pub expected_status : Bool → String
expected_status is_rollback = if is_rollback then "rolling_back" else "executing"

abbrev pub reason_for : Option ℕ → AgentTaskStats → ℕ → Reason
reason_for shard s retry_num =
    task_counts shard s.failed s.timeout (leb max_finalize_retries retry_num)

-- The failure of the listing leaves the nil slice.
unfoldable pub all_shards : ℕ → Db (List ReleaseShard)
all_shards id = handle (list_shards id) (λ _. pure []) (λ ss. pure ss)

unfoldable pub count_release : ℕ → AgentTaskStats → Db Unit
count_release id s = do
  ignore (increment_success_by id s.succeeded)
  ignore (increment_failure_by id (s.failed + s.timeout))

abbrev pub mark_shards : String → List ReleaseShard → Db Unit
mark_shards status ss = for_each (λ sh. ignore (update_shard_status sh.id status)) ss

abbrev pub count_shards : AgentTaskStats → List ReleaseShard → Db Unit
count_shards s ss =
    for_each (λ sh. ignore (update_shard_counts sh.id s.succeeded (s.failed + s.timeout))) ss

unfoldable pub complete_if : ℕ → Bool → Db Unit
complete_if record_id success =
    if ltb 0 record_id then ignore (complete_rollback record_id success) else pure tt

unfoldable pub finalize_rollback : ℕ → AgentTaskStats → ℕ → ℕ → Db Unit
unfolding count_release all_shards complete_if
finalize_rollback id s retry_num record_id = do
  count_release id s
  shards ← all_shards id
  count_shards s shards
  if has_failed s retry_num
      then (do
        transition_release id "rolling_back" "failed" (reason_for none s retry_num) system
        mark_shards "failed" shards
        complete_if record_id false)
      else (do
        transition_release id "rolling_back" "rolled_back" (text "all rollback tasks completed")
            system
        mark_shards "succeeded" shards
        complete_if record_id true)
  ignore (set_ended_at id)

-- `afterIndex` is 0 where the current shard cannot be read.
unfoldable pub after_index : ℕ → Db ℕ
after_index shard_id = handle (get_shard_by_id shard_id) (λ _. pure 0) (λ s. pure s.shard_index)

-- The error is logged and leaves the nil pointer: no shard.
unfoldable pub next_shard : ℕ → ℕ → Db (Option ReleaseShard)
next_shard id after = handle (get_next_pending_shard id after) (λ _. pure none) (λ o. pure o)

unfoldable pub finish_release : ℕ → Db Unit
finish_release id = do
  transition_release id "executing" "succeeded" (text "all shards completed") system
  ignore (set_ended_at id)

unfoldable pub finalize_shard : ℕ → ℕ → AgentTaskStats → ℕ → Db Unit
unfolding count_release after_index next_shard finish_release
finalize_shard id shard_id s retry_num = do
  ignore (update_shard_counts shard_id s.succeeded (s.failed + s.timeout))
  count_release id s
  if has_failed s retry_num
      then (do
        ignore (update_shard_status shard_id "failed")
        transition_release id "executing" "failed" (reason_for (some shard_id) s retry_num) system
        ignore (set_ended_at id))
      else (do
        ignore (update_shard_status shard_id "succeeded")
        after ← after_index shard_id
        next ← next_shard id after
        on_option next (finish_release id)
            (λ n. ignore (enqueue (dispatch_job (record { release_id = id; shard_id = n.id })))))

-- A task with no shard, from before the shards were sequential.
unfoldable pub finalize_legacy : ℕ → AgentTaskStats → ℕ → Db Unit
unfolding count_release all_shards
finalize_legacy id s retry_num = do
  count_release id s
  shards ← all_shards id
  count_shards s shards
  if has_failed s retry_num
      then (do
        transition_release id "executing" "failed" (reason_for none s retry_num) system
        mark_shards "failed" shards)
      else (do
        transition_release id "executing" "succeeded" (text "all tasks completed") system
        mark_shards "succeeded" shards)
  ignore (set_ended_at id)

unfoldable pub stats_for : ℕ → ℕ → Bool → Db AgentTaskStats
stats_for id shard_id is_rollback =
    if not is_rollback && ltb 0 shard_id
    then get_agent_task_stats_by_shard shard_id
    else get_agent_task_stats_by_release id

unfoldable pub conclude : ReleaseFinalizePayload → AgentTaskStats → Db Unit
unfolding finalize_rollback finalize_shard finalize_legacy
conclude p s =
    if p.is_rollback
    then finalize_rollback p.release_id s p.retry_num p.rollback_record_id
    else (if ltb 0 p.shard_id
        then finalize_shard p.release_id p.shard_id s p.retry_num
        else finalize_legacy p.release_id s p.retry_num)

unfoldable pub finalize : ReleaseFinalizePayload → Db Unit
unfolding stats_for conclude
finalize p = do
  rel ← get_by_id p.release_id
  if str_eq rel.status (expected_status p.is_rollback)
      then (do
        s ← stats_for p.release_id p.shard_id p.is_rollback
        if still_running s p.retry_num
            then ignore (enqueue (finalize_job (record p { retry_num = suc p.retry_num })))
            else conclude p s)
      else pure tt
