-- ===== src/Release/Service/Finalize/Polling.antt =====
-- internal/release/service.go: when `Finalize` waits, when it concludes, and when it does nothing.
use domain_lifecycle_deploym.Base.{
  ℕ, suc, ◌≡◌, refl, str_eq, Bool, true, false, some, List, [], ◌∷◌, ◌++◌, ◌||◌, ◌<◌, count_where,
  first, arith, Bool-cases, inl, inr, ltb, if◌then◌else◌, ◌&&◌, not, any, leb, ◌+◌, ◌∙◌,
}
use domain_lifecycle_deploym.Base.Exec.{Session, pure}
use domain_lifecycle_deploym.Base.Runs.{
  Ran, Runs, Runs-bind, Runs-reads, Runs-then, Runs-writes, Runs-ignore,
}
use domain_lifecycle_deploym.Base.Atomic.{reads-kept}
use domain_lifecycle_deploym.Release.Tables.{
  AgentTask, Release, Tables, ReleaseFinalizePayload, finalize_job,
}
use domain_lifecycle_deploym.Release.Store.{is_release, get_by_id}
use domain_lifecycle_deploym.Release.TaskStore.{
  task_stats, has_status, get_agent_task_stats_by_release, get_agent_task_stats_by_shard,
  tasks_where, of_release, of_shard, AgentTaskStats,
}
use domain_lifecycle_deploym.Release.Service.Transition.{enqueue}
use domain_lifecycle_deploym.Release.Service.Finalize.{
  has_failed, still_running, finalize, expected_status, stats_for,
}

-- A task that has not succeeded: waiting, at work, failed or timed out.
abbrev pub not_done : AgentTask → Bool
not_done a =
    has_status "pending" a
    || (has_status "claimed" a
        || (has_status "running" a || (has_status "failed" a || has_status "timeout" a)))

none_left :
    (rows : List AgentTask)
    → count_where (has_status "pending") rows ≡ 0
    → count_where (has_status "claimed") rows ≡ 0
    → count_where (has_status "running") rows ≡ 0
    → count_where (has_status "failed") rows ≡ 0
    → count_where (has_status "timeout") rows ≡ 0
    → count_where not_done rows ≡ 0
unfolding count_where
none_left [] p c r f t = refl
none_left (a ∷ rows) p c r f t = ground (arith, none_left rows)

no_failures :
    (s : AgentTaskStats) (n : ℕ)
    → still_running s n ≡ false
    → has_failed s n ≡ false
    → (s.pending ≡ 0) × ((s.claimed ≡ 0) × ((s.running ≡ 0) × ((s.failed ≡ 0) × (s.timeout ≡ 0))))
unfolding still_running has_failed
no_failures s n w f = ground arith

-- Where Finalize neither waits nor fails, none of the counted tasks is pending, claimed, running,
-- failed or timed out, whatever the retry number.
pub concluded-AllDone :
    (rows : List AgentTask) (retry_num : ℕ)
    → still_running (task_stats rows) retry_num ≡ false
    → has_failed (task_stats rows) retry_num ≡ false
    → count_where not_done rows ≡ 0
unfolding task_stats
concluded-AllDone rows n w f =
    let (p, (c, (r, (x, t)))) = no_failures (task_stats rows) n w f in none_left rows p c r x t

-- The rows that Finalize counts: those of the shard, or of the whole release.
abbrev pub counted_tasks : ReleaseFinalizePayload → Tables → List AgentTask
counted_tasks p t =
    if not p.is_rollback && ltb 0 p.shard_id
    then tasks_where (of_shard p.shard_id) t
    else tasks_where (of_release p.release_id) t

-- Finalize leaves the tables and the queue as they are when the release is in another
-- status than the one that the task is for, whatever calls fail.
finalize-skipped :
    (p : ReleaseFinalizePayload) (r : Release) (d : Session Tables)
    → first (is_release p.release_id) d.tables.releases ≡ some r
    → str_eq r.status (expected_status p.is_rollback) ≡ false
    → (finalize p d).1.tables ≡ d.tables
unfolding finalize get_by_id pure
finalize-skipped p r d h e = reads-kept _ _ _ d r (rw h refl) (rw e refl)

pub stats_for-Runs :
    (p : ReleaseFinalizePayload) (t : Tables)
    → Runs (stats_for p.release_id p.shard_id p.is_rollback) t (task_stats (counted_tasks p t)) t
unfolding stats_for get_agent_task_stats_by_shard get_agent_task_stats_by_release
stats_for-Runs p t = elim (Bool-cases (not p.is_rollback && ltb 0 p.shard_id)) [
  | inl b ↦ rw b (Runs-reads _ _ t _ refl)
  | inr b ↦ rw b (Runs-reads _ _ t _ refl)
]

waiting-Runs :
    (p : ReleaseFinalizePayload) (r : Release) (t : Tables)
    → first (is_release p.release_id) t.releases ≡ some r
    → str_eq r.status (expected_status p.is_rollback) ≡ true
    → still_running (task_stats (counted_tasks p t)) p.retry_num ≡ true
    → Runs (finalize p) t tt (record t {
      queue = t.queue ++ finalize_job (record p { retry_num = suc p.retry_num }) ∷ [];
    })
unfolding finalize get_by_id enqueue
waiting-Runs p r t h e w = Runs-bind _ _ t t _ r tt (Runs-reads _ _ t r (rw h refl)) (
    Runs-then _ _ _ t tt _ e (
      Runs-bind _ _ t t _ (task_stats (counted_tasks p t)) tt (stats_for-Runs p t)
        (Runs-then _ _ _ t tt _ w (Runs-ignore _ t tt _ (Runs-writes _ _ t)))))

-- A task that an agent has still to end, and one that ended badly.
abbrev pub at_work : AgentTask → Bool
at_work a = has_status "pending" a || (has_status "claimed" a || has_status "running" a)

abbrev pub ended_badly : AgentTask → Bool
ended_badly a = has_status "failed" a || has_status "timeout" a

any-counted :
    (p q r : AgentTask → Bool) (rows : List AgentTask)
    → ltb 0 (count_where p rows + count_where q rows + count_where r rows)
      ≡ any (λ a. p a || (q a || r a)) rows
unfolding count_where any
any-counted p q r [] = refl
any-counted p q r (a ∷ rows) = ground (arith, any-counted p q r rows)

any-counted_two :
    (p q : AgentTask → Bool) (rows : List AgentTask)
    → (ltb 0 (count_where p rows) || ltb 0 (count_where q rows)) ≡ any (λ a. p a || q a) rows
unfolding count_where any
any-counted_two p q [] = refl
any-counted_two p q (a ∷ rows) = ground (arith, any-counted_two p q rows)

-- The guards of Finalize, from the rows.
pub still_running_lem :
    (rows : List AgentTask) (n : ℕ)
    → still_running (task_stats rows) n ≡ (any at_work rows && ltb n 360)
unfolding still_running task_stats
still_running_lem rows n =
    ground
      (arith, any-counted (has_status "pending") (has_status "claimed") (has_status "running") rows)

pub has_failed_lem :
    (rows : List AgentTask) (n : ℕ)
    → has_failed (task_stats rows) n ≡ (any ended_badly rows || (any at_work rows && leb 360 n))
unfolding has_failed task_stats
has_failed_lem rows n = ground (
  arith,
  any-counted (has_status "pending") (has_status "claimed") (has_status "running") rows,
  any-counted_two (has_status "failed") (has_status "timeout") rows,
)

-- With no call failing and the release in the status that the task is for, while a counted task is
-- pending, claimed or running and the retry number is below 360, Finalize only puts its own task back
-- into the queue, with the next retry number.
pub finalize-waits :
    (p : ReleaseFinalizePayload) (r : Release) (d0 : Session Tables)
    → first (is_release p.release_id) d0.tables.releases ≡ some r
    → str_eq r.status (expected_status p.is_rollback) ≡ true
    → any at_work (counted_tasks p d0.tables) ≡ true
    → p.retry_num < 360
    → ((n : ℕ) → d0.faults n ≡ false)
    → Ran (finalize p d0) tt (record d0.tables {
      queue = d0.tables.queue ++ finalize_job (record p { retry_num = suc p.retry_num }) ∷ [];
    })
finalize-waits p r d0 h0 h1 h2 h3 q =
    (waiting-Runs p r d0.tables h0 h1
        (still_running_lem (counted_tasks p d0.tables) p.retry_num ∙ ground (arith, h2, h3))).at
      d0 refl q
