-- ===== src/Release/Service/Finalize/Outcome.antt =====
-- internal/release/service.go: the status in which `Finalize` leaves a release, when no call fails.
use domain_lifecycle_deploym.Base.{
  ℕ, ◌≡◌, refl, ◌∙◌, String, str_eq, true, false, some, List, ◌<◌, if◌then◌else◌, arith, first,
  count_where,
}
use domain_lifecycle_deploym.Base.Runs.{Runs, Runs-reads}
use domain_lifecycle_deploym.Base.Exec.{Session}
use domain_lifecycle_deploym.Base.Ends.{
  Ended, Ends, Ends-ignore, Ends-bind, Ends-choice, Ends-weaken, Ends-after, Ends-then, Ends-else,
}
use domain_lifecycle_deploym.Release.Tables.{Release, AgentTask, ReleaseFinalizePayload, Tables}
use domain_lifecycle_deploym.Release.Graph.{can_release_transition}
use domain_lifecycle_deploym.Release.Store.{is_release, get_by_id}
use domain_lifecycle_deploym.Release.TaskStore.{
  AgentTaskStats, task_stats, has_status, tasks_where, of_release,
}
use domain_lifecycle_deploym.Release.Service.Finalize.{
  has_failed, still_running, finalize_rollback, finalize_legacy, conclude, finalize,
  expected_status,
}
use domain_lifecycle_deploym.Release.Service.Finalize.Polling.{counted_tasks, stats_for-Runs}
use domain_lifecycle_deploym.Release.Effects.{lookup-statuses}
use domain_lifecycle_deploym.Release.Service.Finalize.Statuses.{
  In, set_ended_at-In, count_release-In, mark_shards-In, count_shards-In, complete_if-In,
  all_shards-In, transition_release-In,
}

rolled : can_release_transition "rolling_back" "rolled_back" ≡ true
unfolding can_release_transition
rolled = refl

pub succeeding : can_release_transition "executing" "succeeded" ≡ true
unfolding can_release_transition
succeeding = refl

rollback_fails : can_release_transition "rolling_back" "failed" ≡ true
unfolding can_release_transition
rollback_fails = refl

pub release_fails : can_release_transition "executing" "failed" ≡ true
unfolding can_release_transition
release_fails = refl

finalize_rollback-Ends :
    (id : ℕ) (s : AgentTaskStats) (n r : ℕ)
    → Ends
        (finalize_rollback id s n r)
        (In id "rolling_back")
        (In id (if has_failed s n then "failed" else "rolled_back"))
unfolding finalize_rollback
finalize_rollback-Ends id s n r = Ends-bind _ _ (count_release-In id "rolling_back" id s) (λ u.
    Ends-bind _ _ (all_shards-In id "rolling_back" id) (λ shards.
      Ends-bind _ _ (count_shards-In id "rolling_back" s shards) (λ v.
        Ends-bind _ _
          (Ends-choice (λ b. In id (if b then "failed" else "rolled_back")) (has_failed s n) _ _
            (Ends-bind _ _ (transition_release-In id "rolling_back" "failed" _ _ rollback_fails)
              (λ w.
                Ends-bind _ _ (mark_shards-In id "failed" "failed" shards)
                  (λ z. complete_if-In id "failed" r false)))
            (Ends-bind _ _ (transition_release-In id "rolling_back" "rolled_back" _ _ rolled) (λ w.
              Ends-bind _ _ (mark_shards-In id "rolled_back" "succeeded" shards)
                (λ z. complete_if-In id "rolled_back" r true))))
          (λ w. Ends-ignore _ (set_ended_at-In id _ id)))))

finalize_legacy-Ends :
    (id : ℕ) (s : AgentTaskStats) (n : ℕ)
    → Ends
        (finalize_legacy id s n)
        (In id "executing")
        (In id (if has_failed s n then "failed" else "succeeded"))
unfolding finalize_legacy
finalize_legacy-Ends id s n = Ends-bind _ _ (count_release-In id "executing" id s) (λ u.
    Ends-bind _ _ (all_shards-In id "executing" id) (λ shards.
      Ends-bind _ _ (count_shards-In id "executing" s shards) (λ v.
        Ends-bind _ _
          (Ends-choice (λ b. In id (if b then "failed" else "succeeded")) (has_failed s n) _ _
            (Ends-bind _ _ (transition_release-In id "executing" "failed" _ _ release_fails)
              (λ w. mark_shards-In id "failed" "failed" shards))
            (Ends-bind _ _ (transition_release-In id "executing" "succeeded" _ _ succeeding)
              (λ w. mark_shards-In id "succeeded" "succeeded" shards)))
          (λ w. Ends-ignore _ (set_ended_at-In id _ id)))))

pub status-In :
    (id : ℕ) (x : String) (r : Release) (t : Tables)
    → first (is_release id) t.releases ≡ some r
    → r.status ≡ x
    → In id x t
status-In id x r t h e = lookup-statuses id t.releases ∙ rw (h, e) refl

get_by_id-Runs :
    (id : ℕ) (r : Release) (t : Tables)
    → first (is_release id) t.releases ≡ some r
    → Runs (get_by_id id) t r t
unfolding get_by_id
get_by_id-Runs id r t h = Runs-reads _ _ t r (rw h refl)

-- Finalize of a release in the expected status that need not wait concludes.
pub concludes :
    (p : ReleaseFinalizePayload) (r : Release) (t : Tables) (Q : Tables → Type 0)
    → first (is_release p.release_id) t.releases ≡ some r
    → str_eq r.status (expected_status p.is_rollback) ≡ true
    → still_running (task_stats (counted_tasks p t)) p.retry_num ≡ false
    → Ends (conclude p (task_stats (counted_tasks p t))) (λ u. u ≡ t) Q
    → Ends (finalize p) (λ u. u ≡ t) Q
unfolding finalize
concludes p r t Q h e w k = Ends-after _ _ t t r (get_by_id-Runs p.release_id r t h) (
    Ends-then _ _ _ e (
      Ends-after _ _ t t (task_stats (counted_tasks p t)) (stats_for-Runs p t)
        (Ends-else _ _ _ w k)))

pub rolling_back-Ends :
    (p : ReleaseFinalizePayload) (r : Release) (t : Tables)
    → p.is_rollback ≡ true
    → first (is_release p.release_id) t.releases ≡ some r
    → r.status ≡ "rolling_back"
    → still_running (task_stats (counted_tasks p t)) p.retry_num ≡ false
    → Ends
        (finalize p)
        (λ u. u ≡ t)
        (In p.release_id (
          if has_failed (task_stats (counted_tasks p t)) p.retry_num
          then "failed"
          else "rolled_back"))
unfolding conclude
rolling_back-Ends p r t b h e w = concludes p r t _ h (rw (e, b) refl) w (
    rw b (
      Ends-weaken _ (λ s q. rw q (status-In p.release_id "rolling_back" r t h e))
        (finalize_rollback-Ends p.release_id _ p.retry_num p.rollback_record_id)))

pub releasing-Ends :
    (p : ReleaseFinalizePayload) (r : Release) (t : Tables)
    → p.is_rollback ≡ false
    → p.shard_id ≡ 0
    → first (is_release p.release_id) t.releases ≡ some r
    → r.status ≡ "executing"
    → still_running (task_stats (counted_tasks p t)) p.retry_num ≡ false
    → Ends
        (finalize p)
        (λ u. u ≡ t)
        (In p.release_id (
          if has_failed (task_stats (counted_tasks p t)) p.retry_num
          then "failed"
          else "succeeded"))
unfolding conclude
releasing-Ends p r t b z h e w = concludes p r t _ h (rw (e, b) refl) w (
    rw (b, z)
      (Ends-weaken _ (λ s q. rw q (status-In p.release_id "executing" r t h e))
        (finalize_legacy-Ends p.release_id _ p.retry_num)))

failed_task-has_failed :
    (rows : List AgentTask) (n : ℕ)
    → 0 < count_where (has_status "failed") rows
    → has_failed (task_stats rows) n ≡ true
unfolding has_failed task_stats
failed_task-has_failed rows n h = ground arith

failing_rollback-Ends :
    (p : ReleaseFinalizePayload) (r : Release) (t : Tables)
    → p.is_rollback ≡ true
    → first (is_release p.release_id) t.releases ≡ some r
    → r.status ≡ "rolling_back"
    → still_running (task_stats (counted_tasks p t)) p.retry_num ≡ false
    → 0 < count_where (has_status "failed") (tasks_where (of_release p.release_id) t)
    → Ends (finalize p) (λ u. u ≡ t) (In p.release_id "failed")
failing_rollback-Ends p r t b h e w f =
    rw (failed_task-has_failed (counted_tasks p t) p.retry_num (rw b f)) at
      (rolling_back-Ends p r t b h e w)

-- With no call failing, the rollback of a release that has a failed agent task of any kind, its
-- deployment's included, never ends rolled_back: a Finalize that need not wait marks it failed.
pub rollback_of_failed-Fails :
    (p : ReleaseFinalizePayload) (r : Release) (d0 : Session Tables)
    → p.is_rollback ≡ true
    → first (is_release p.release_id) d0.tables.releases ≡ some r
    → r.status ≡ "rolling_back"
    → still_running (task_stats (counted_tasks p d0.tables)) p.retry_num ≡ false
    → 0 < count_where (has_status "failed") (tasks_where (of_release p.release_id) d0.tables)
    → ((n : ℕ) → d0.faults n ≡ false)
    → Ended (finalize p d0) (In p.release_id "failed")
rollback_of_failed-Fails p r d0 h0 h1 h2 h3 h4 q =
    (failing_rollback-Ends p r d0.tables h0 h1 h2 h3 h4).at d0 refl q
