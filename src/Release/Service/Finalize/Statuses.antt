-- ===== src/Release/Service/Finalize/Statuses.antt =====
-- internal/release/service.go: the statements of `Finalize` leave the status alone,
-- and a transition changes it, when no call fails.
use domain_lifecycle_deploym.Base.{
  ℕ, ◌≡◌, refl, String, Bool, true, some, List, ◌==◌, ltb, ◌+◌, arith, first, map-update_where,
  Option-cases, inl, inr,
}
use domain_lifecycle_deploym.Base.Exec.{pure, writes, ignore}
use domain_lifecycle_deploym.Base.Runs.{Runs-writes, Runs-reads}
use domain_lifecycle_deploym.Base.Ends.{
  Ends, Ends-Runs, Ends-if, Ends-ignore, Ends-bind, Ends-handle, Ends-pure, Ends-for_each,
}
use domain_lifecycle_deploym.Release.Tables.{
  db_failed, Release, ReleaseShard, Reason, Actor, Tables,
}
use domain_lifecycle_deploym.Release.Graph.{can_release_transition}
use domain_lifecycle_deploym.Release.Store.{
  is_release, set_release, set_ended_at, increment_success_by, increment_failure_by, list_shards,
  update_shard_status, update_shard_counts,
}
use domain_lifecycle_deploym.Release.TaskStore.{AgentTaskStats, complete_rollback}
use domain_lifecycle_deploym.Release.Service.Transition.{transition_release}
use domain_lifecycle_deploym.Release.Service.Transition.Atomicity.{transition_release-Runs}
use domain_lifecycle_deploym.Release.Service.Finalize.{
  all_shards, count_release, complete_if, mark_shards, count_shards,
}
use domain_lifecycle_deploym.Release.Effects.{
  statuses, status_pair, lookup_status, lookup-statuses, set-statuses, moved,
}
use domain_lifecycle_deploym.Release.Audit.Steps.{lookup-set_same}

-- The release has the status.
abbrev pub In : ℕ → String → Tables → Type 0
In id x t = lookup_status id (statuses t) ≡ some x

module _ (k : ℕ) (x : String) where
  pub write-In :
      (f : Tables → Tables)
      → ((t : Tables) → statuses (f t) ≡ statuses t)
      → Ends (writes db_failed f) (In k x) (In k x)
  write-In f h = Ends-Runs _ (λ t p. (tt, f t, Runs-writes _ f t, rw (h t) p))

  update-In :
      (id : ℕ) (f : Tables → Release → Release)
      → ((t : Tables) (r : Release) → status_pair (f t r) ≡ status_pair r)
      → Ends (writes db_failed (λ t. set_release id (f t) t)) (In k x) (In k x)
  update-In id f h =
      write-In (λ t. set_release id (f t) t)
        (λ t. map-update_where status_pair (is_release id) (f t) t.releases (h t))

  pub increment_success_by-In : (id n : ℕ) → Ends (increment_success_by id n) (In k x) (In k x)
  unfolding increment_success_by
  increment_success_by-In id n =
      Ends-if (n == 0) _ _ (λ e. Ends-pure tt) (λ e. update-In id _ (λ t r. refl))

  pub increment_failure_by-In : (id n : ℕ) → Ends (increment_failure_by id n) (In k x) (In k x)
  unfolding increment_failure_by
  increment_failure_by-In id n =
      Ends-if (n == 0) _ _ (λ e. Ends-pure tt) (λ e. update-In id _ (λ t r. refl))

  pub set_ended_at-In : (id : ℕ) → Ends (set_ended_at id) (In k x) (In k x)
  unfolding set_ended_at
  set_ended_at-In id = update-In id _ (λ t r. refl)

  pub count_release-In : (id : ℕ) (s : AgentTaskStats) → Ends (count_release id s) (In k x) (In k x)
  unfolding count_release
  count_release-In id s =
      Ends-bind _ _ (Ends-ignore _ (increment_success_by-In id s.succeeded))
        (λ u. Ends-ignore _ (increment_failure_by-In id (s.failed + s.timeout)))

  pub update_shard_status-In :
      (id : ℕ) (s : String) → Ends (update_shard_status id s) (In k x) (In k x)
  unfolding update_shard_status
  update_shard_status-In id s = write-In _ (λ t. refl)

  pub update_shard_counts-In : (id n m : ℕ) → Ends (update_shard_counts id n m) (In k x) (In k x)
  unfolding update_shard_counts
  update_shard_counts-In id n m = write-In _ (λ t. refl)

  pub mark_shards-In :
      (s : String) (ss : List ReleaseShard) → Ends (mark_shards s ss) (In k x) (In k x)
  mark_shards-In s ss = Ends-for_each _ ss (λ sh. Ends-ignore _ (update_shard_status-In sh.id s))

  pub count_shards-In :
      (s : AgentTaskStats) (ss : List ReleaseShard) → Ends (count_shards s ss) (In k x) (In k x)
  count_shards-In s ss =
      Ends-for_each _ ss
        (λ sh. Ends-ignore _ (update_shard_counts-In sh.id s.succeeded (s.failed + s.timeout)))

  pub complete_rollback-In : (id : ℕ) (b : Bool) → Ends (complete_rollback id b) (In k x) (In k x)
  unfolding complete_rollback
  complete_rollback-In id b = write-In _ (λ t. refl)

  pub complete_if-In : (id : ℕ) (b : Bool) → Ends (complete_if id b) (In k x) (In k x)
  unfolding complete_if
  complete_if-In id b =
      Ends-if (ltb 0 id) (ignore (complete_rollback id b)) (pure tt)
        (λ e. Ends-ignore _ (complete_rollback-In id b)) (λ e. Ends-pure tt)

  pub all_shards-In : (id : ℕ) → Ends (all_shards id) (In k x) (In k x)
  unfolding all_shards list_shards
  all_shards-In id =
      Ends-handle _ _ _ (Ends-Runs _ (λ t p. (_, t, Runs-reads _ _ t _ refl, p)))
        (λ ss. Ends-pure ss)

-- A transition along an edge of the graph, from the status of the release.
pub transition_release-In :
    (id : ℕ) (from to : String) (reason : Reason) (by : Actor)
    → can_release_transition from to ≡ true
    → Ends (transition_release id from to reason by) (In id from) (In id to)
transition_release-In id from to reason by c = Ends-Runs _ (λ t p.
    elim (Option-cases (first (is_release id) t.releases)) [
      | inl e ↦ absurd (ground (arith, lookup-statuses id t.releases))
      | inr (r, e) ↦ (
        tt,
        moved id from to reason by t,
        transition_release-Runs id from to reason by r t c e
            (ground (arith, lookup-statuses id t.releases)),
        rw (set-statuses id to t.releases) (lookup-set_same id to from (statuses t) p),
      )
    ])
