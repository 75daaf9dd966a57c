-- ===== src/Release/Service/Finalize/Limits.antt =====
-- internal/release/service.go: a shard that is done or has failed, and the end of the retries.
use domain_lifecycle_deploym.Base.{
  lt→ltb, ℕ, ◌≡◌, refl, ◌∙◌, String, Bool, true, false, some, none, Option, ◌<◌, ◌≤◌, ◌+◌, ◌⊎◌, inl,
  inr, Bool-cases, ◌||◌, ltb, arith, first, any, subst,
}
use domain_lifecycle_deploym.Base.Runs.{Runs, Runs-reads, Runs-pure, Runs-handle-reads}
use domain_lifecycle_deploym.Base.Exec.{Session, pure, branch, on_option, ignore}
use domain_lifecycle_deploym.Base.Ends.{
  Ended, Ends, Ends-Runs, Ends-ignore, Ends-bind, Ends-choice, Ends-weaken, Ends-conclude,
  Ends-then, Ends-else, Ends-pure, Ends-handle,
}
use domain_lifecycle_deploym.Release.Tables.{
  Release, ReleaseShard, ReleaseFinalizePayload, Tables, Job, shard_not_found, dispatch_job,
}
use domain_lifecycle_deploym.Release.Store.{
  is_release, is_shard, found, get_shard_by_id, get_next_pending_shard,
}
use domain_lifecycle_deploym.Release.TaskStore.{AgentTaskStats, task_stats}
use domain_lifecycle_deploym.Release.Service.Transition.{enqueue}
use domain_lifecycle_deploym.Release.Service.Finalize.{
  has_failed, still_running, finalize_shard, conclude, finalize, expected_status, after_index,
  next_shard, finish_release,
}
use domain_lifecycle_deploym.Release.Service.Finalize.Polling.{
  counted_tasks, at_work, ended_badly, still_running_lem, has_failed_lem,
}
use domain_lifecycle_deploym.Release.Service.Finalize.Statuses.{
  In, write-In, set_ended_at-In, count_release-In, update_shard_status-In, update_shard_counts-In,
  transition_release-In,
}
use domain_lifecycle_deploym.Release.Service.Finalize.Outcome.{
  release_fails, succeeding, concludes, status-In, rolling_back-Ends, releasing-Ends,
}

module _ (k : ℕ) (x : String) where
  enqueue-In : (j : Job) → Ends (enqueue j) (In k x) (In k x)
  unfolding enqueue
  enqueue-In j = write-In k x _ (λ t. refl)

  after_index-Runs :
      (o : Option ReleaseShard) (t : Tables)
      → (n : ℕ) × Runs
          (branch (found shard_not_found o) (λ _. pure 0) (λ s. pure s.shard_index))
          t
          n
          t
  after_index-Runs none t = (0, Runs-pure 0 t)
  after_index-Runs (some s) t = (s.shard_index, Runs-pure s.shard_index t)

  after_index-In : (id : ℕ) → Ends (after_index id) (In k x) (In k x)
  unfolding after_index get_shard_by_id
  after_index-In id = Ends-Runs _ (λ t p.
      let (n, h) = after_index-Runs (first (is_shard id) t.shards) t in
      (n, t, Runs-handle-reads _ _ _ _ t t _ n refl h, p))

  next_shard-In : (id after : ℕ) → Ends (next_shard id after) (In k x) (In k x)
  unfolding next_shard get_next_pending_shard
  next_shard-In id after =
      Ends-handle _ _ _ (Ends-Runs _ (λ t p. (_, t, Runs-reads _ _ t _ refl, p))) (λ o. Ends-pure o)

-- A release whose shard has ended well goes on with the next shard, or has succeeded.
abbrev pub GoesOn : ℕ → Tables → Type 0
GoesOn id t = In id "executing" t ⊎ In id "succeeded" t

finish_release-GoesOn : (id : ℕ) → Ends (finish_release id) (In id "executing") (GoesOn id)
unfolding finish_release
finish_release-GoesOn id =
    Ends-bind _ _ (transition_release-In id "executing" "succeeded" _ _ succeeding)
      (λ u. Ends-conclude _ (λ t p. inr p) (Ends-ignore _ (set_ended_at-In id "succeeded" id)))

moves_on-GoesOn :
    (id : ℕ) (o : Option ReleaseShard)
    → Ends
        (on_option o
          (finish_release id)
          (λ n. ignore (enqueue (dispatch_job (record { release_id = id; shard_id = n.id })))))
        (In id "executing")
        (GoesOn id)
unfolding on_option
moves_on-GoesOn id none = finish_release-GoesOn id
moves_on-GoesOn id (some n) =
    Ends-conclude _ (λ t p. inl p) (Ends-ignore _ (enqueue-In id "executing" _))

-- Where a release stands after a shard.
abbrev pub AfterShard : ℕ → Bool → Tables → Type 0
AfterShard id true t = In id "failed" t
AfterShard id false t = GoesOn id t

finalize_shard-After :
    (id shard : ℕ) (s : AgentTaskStats) (n : ℕ)
    → Ends (finalize_shard id shard s n) (In id "executing") (AfterShard id (has_failed s n))
unfolding finalize_shard
finalize_shard-After id shard s n =
    Ends-bind _ _
      (Ends-ignore _
        (update_shard_counts-In id "executing" shard s.succeeded (s.failed + s.timeout)))
      (λ u. Ends-bind _ _ (count_release-In id "executing" id s) (λ v.
        Ends-choice (AfterShard id) (has_failed s n) _ _
          (Ends-bind _ _ (Ends-ignore _ (update_shard_status-In id "executing" shard "failed"))
            (λ w.
              Ends-bind _ _ (transition_release-In id "executing" "failed" _ _ release_fails)
                (λ z. Ends-ignore _ (set_ended_at-In id "failed" id))))
          (Ends-bind _ _ (Ends-ignore _ (update_shard_status-In id "executing" shard "succeeded"))
            (λ w. Ends-bind _ _ (after_index-In id "executing" shard) (λ after.
              Ends-bind _ _ (next_shard-In id "executing" id after)
                (λ next. moves_on-GoesOn id next))))))

shard-After :
    (p : ReleaseFinalizePayload) (r : Release) (t : Tables)
    → p.is_rollback ≡ false
    → 0 < p.shard_id
    → first (is_release p.release_id) t.releases ≡ some r
    → r.status ≡ "executing"
    → still_running (task_stats (counted_tasks p t)) p.retry_num ≡ false
    → Ends
        (finalize p)
        (λ u. u ≡ t)
        (AfterShard p.release_id (has_failed (task_stats (counted_tasks p t)) p.retry_num))
unfolding conclude
shard-After p r t b z h e w = concludes p r t _ h (rw (e, b) refl) w (
    Ends-else _ _ _ b (
      Ends-then _ _ _ (lt→ltb 0 p.shard_id z) (
        Ends-weaken _ (λ s q. rw q (status-In p.release_id "executing" r t h e))
          (finalize_shard-After p.release_id p.shard_id _ p.retry_num))))

-- With no call failing and the release executing, once no agent task of the shard is pending, claimed
-- or running, or the retry number is 360 or more, Finalize of the shard ends with the release failed if
-- a task of the shard has failed or timed out or is still pending, claimed or running; otherwise the
-- release is executing or succeeded.
pub shard_finalize-Ends :
    (p : ReleaseFinalizePayload) (r : Release) (d0 : Session Tables)
    → p.is_rollback ≡ false
    → 0 < p.shard_id
    → first (is_release p.release_id) d0.tables.releases ≡ some r
    → r.status ≡ "executing"
    → (any at_work (counted_tasks p d0.tables) ≡ false) ⊎ (360 ≤ p.retry_num)
    → ((n : ℕ) → d0.faults n ≡ false)
    → Ended (finalize p d0) (
        AfterShard p.release_id
          (any ended_badly (counted_tasks p d0.tables) || any at_work (counted_tasks p d0.tables)))
shard_finalize-Ends p r d0 h0 h1 h2 h3 h4 q =
    let rows = counted_tasks p d0.tables in
    let idle : still_running (task_stats rows) p.retry_num ≡ false =
      still_running_lem rows p.retry_num ∙ ground (arith, h4) in
    let same : has_failed (task_stats rows) p.retry_num
        ≡ (any ended_badly rows || any at_work rows) =
      has_failed_lem rows p.retry_num ∙ ground (arith, h4) in
    subst (λ b. Ended (finalize p d0) (AfterShard p.release_id b)) same
      ((shard-After p r d0.tables h0 h1 h2 h3 idle).at d0 refl q)

-- With no call failing and the release in the status that the task is for, from the 360th retry on
-- Finalize does not wait for a counted task that is pending, claimed or running: it marks the release
-- failed, for a rollback, a shard and a release without shards alike.
pub polling-Bounded :
    (p : ReleaseFinalizePayload) (r : Release) (d0 : Session Tables)
    → first (is_release p.release_id) d0.tables.releases ≡ some r
    → r.status ≡ expected_status p.is_rollback
    → any at_work (counted_tasks p d0.tables) ≡ true
    → 360 ≤ p.retry_num
    → ((n : ℕ) → d0.faults n ≡ false)
    → Ended (finalize p d0) (In p.release_id "failed")
polling-Bounded p r d0 h e w n q =
    let rows = counted_tasks p d0.tables in
    let idle : still_running (task_stats rows) p.retry_num ≡ false =
      still_running_lem rows p.retry_num ∙ ground (arith, n) in
    let fails : has_failed (task_stats rows) p.retry_num ≡ true =
      has_failed_lem rows p.retry_num ∙ ground (arith, w, n) in
    elim (Bool-cases p.is_rollback) [
      | inl back ↦
          rw fails at
            ((rolling_back-Ends p r d0.tables back h (e ∙ rw back refl) idle).at d0 refl q)
      | inr forth ↦ elim (Bool-cases (ltb 0 p.shard_id)) [
        | inl shard ↦ rw fails at (
            (shard-After p r d0.tables forth (ground (arith, shard)) h (e ∙ rw forth refl) idle).at
              d0 refl q)
        | inr legacy ↦ rw fails at (
            (releasing-Ends p r d0.tables forth (ground (arith, legacy)) h (e ∙ rw forth refl)
                idle).at
              d0 refl q)
      ]
    ]
