-- ===== src/Examples/Outcomes.antt =====
-- Concrete inputs for the statements about the end of a release and of a rollback.
use domain_lifecycle_deploym.Base.{
  ◌≡◌, refl, true, false, some, none, [], ◌∷◌, String, first, arith, any, select, count_where, ◌==◌,
  inl,
}
use domain_lifecycle_deploym.Base.Ends.{Ended}
use domain_lifecycle_deploym.Base.Exec.{Session}
use domain_lifecycle_deploym.Release.Tables.{ReleaseFinalizePayload, Tables}
use domain_lifecycle_deploym.Release.TaskStore.{task_stats}
use domain_lifecycle_deploym.Release.Service.Finalize.{finalize, still_running}
use domain_lifecycle_deploym.Release.Service.Finalize.Polling.{counted_tasks}
use domain_lifecycle_deploym.Release.Service.Finalize.Statuses.{In}
use domain_lifecycle_deploym.Release.Service.Finalize.Outcome.{rollback_of_failed-Fails}
use domain_lifecycle_deploym.Release.Service.Finalize.Polling.{at_work}
use domain_lifecycle_deploym.Release.Service.Finalize.Limits.{shard_finalize-Ends, polling-Bounded}
use domain_lifecycle_deploym.Examples.{release_in}
use domain_lifecycle_deploym.Examples.Parts.{task, poll, busy_tables, busy_session, is_there}

abbrev ending : String → String → Tables
ending status outcome = record busy_tables {
  releases = release_in status ∷ [];
  agent_tasks = task 1 3 outcome ∷ task 2 4 "succeeded" ∷ [];
}

abbrev quiet_session : Tables → Session Tables
quiet_session t = record { tables = t; faults = λ n. false; calls = 0 }

abbrev rollback_poll : ReleaseFinalizePayload
rollback_poll = record poll { is_rollback = true }

rolling_there :
    first (λ r. r.id == 10) (ending "rolling_back" "failed").releases
    ≡ some (release_in "rolling_back")
unfolding first
rolling_there = refl

rollback_idle :
    still_running (task_stats (counted_tasks rollback_poll (ending "rolling_back" "failed"))) 1
    ≡ false
unfolding still_running task_stats count_where select any
rollback_idle = refl

rollback_of_failed-Fails_example :
    Ended (finalize rollback_poll (quiet_session (ending "rolling_back" "failed"))) (In 10 "failed")
unfolding count_where select any
rollback_of_failed-Fails_example =
    rollback_of_failed-Fails rollback_poll (release_in "rolling_back")
      (quiet_session (ending "rolling_back" "failed")) refl rolling_there refl rollback_idle
      (omega arith) (λ n. refl)

abbrev shard_poll : ReleaseFinalizePayload
shard_poll = record poll { shard_id = 11 }

abbrev shard_tables : Tables
shard_tables = record (ending "executing" "timeout") {
  domain_tasks =
      (record {
        id = 20;
        release_id = 10;
        shard_id = some 11;
        domain_id = 4;
        host_group_id = none;
        task_type = "deploy_html";
        status = "dispatched";
        ended_at = none;
        last_error = none;
      })
      ∷ [];
}

shard_there : first (λ r. r.id == 10) shard_tables.releases ≡ some (release_in "executing")
unfolding first
shard_there = refl

shard_idle : any at_work (counted_tasks shard_poll shard_tables) ≡ false
unfolding select any
shard_idle = refl

shard_finalize-Ends_example :
    Ended (finalize shard_poll (quiet_session shard_tables)) (In 10 "failed")
unfolding select any
shard_finalize-Ends_example =
    shard_finalize-Ends shard_poll (release_in "executing") (quiet_session shard_tables) refl
      (omega arith) shard_there refl (inl shard_idle) (λ n. refl)

abbrev expired_poll : ReleaseFinalizePayload
expired_poll = record poll { retry_num = 360 }

expired_busy : any at_work (counted_tasks expired_poll busy_tables) ≡ true
unfolding select any
expired_busy = refl

polling-Bounded_example : Ended (finalize expired_poll busy_session) (In 10 "failed")
polling-Bounded_example =
    polling-Bounded expired_poll (release_in "executing") busy_session is_there refl expired_busy
      (omega arith) (λ n. refl)
