-- ===== src/Examples/Alarms.antt =====
-- Concrete alerts and channels for the statements on alerts that have hypotheses.
use domain_lifecycle_deploym.Base.{
  str_eq, ◌+◌, ◌≡◌, refl, String, eq_iff, true, false, Option, none, some, [], ◌∷◌, arith, any,
  first, count_where, ◌==◌,
}
use domain_lifecycle_deploym.Base.Exec.{Session, ◌>>◌}
use domain_lifecycle_deploym.Base.Runs.{Ran}
use domain_lifecycle_deploym.Base.Ends.{Ended}
use domain_lifecycle_deploym.Alerts.Tables.{
  AlertEvent, NotificationRule, NotificationChannel, AlertTables,
}
use domain_lifecycle_deploym.Alerts.Store.{matching_rules, is_storable}
use domain_lifecycle_deploym.Alerts.Engine.{fire, resolve}
use domain_lifecycle_deploym.Alerts.Dispatcher.{Message, history_row, dispatch_by_channel_id}
use domain_lifecycle_deploym.Alerts.Deduplication.{
  Deduped, fires, waits, all_acts, all_acts-Deduped,
}
use domain_lifecycle_deploym.Alerts.Routing.{sent, goes_to, one_if, fire-Notifies}
use domain_lifecycle_deploym.Alerts.Recovery.{resolve-Reopens}
use domain_lifecycle_deploym.Alerts.Delivery.{with_history, dispatch_by_channel_id-Records}

abbrev pub pager : NotificationChannel
pager = record { id = 7; channel_type = "slack"; config = "{}"; enabled = true }

abbrev pub page_severe : NotificationRule
page_severe = record {
  id = 1;
  channel_id = 7;
  alert_type = none;
  min_severity = "P2";
  target_type = none;
  target_id = none;
  enabled = true;
}

abbrev pub quiet : AlertTables
quiet = record {
  now = 5000;
  next_id = 3;
  alerts = [];
  rules = page_severe ∷ [];
  channels = pager ∷ [];
  history = [];
  queue = [];
  is_json = λ s. str_eq s "{}";
}

abbrev pub blocked_alert : AlertEvent
blocked_alert = record {
  id = 0;
  severity = "P1";
  source = "gfw";
  target_kind = "domain";
  target_id = some 4;
  title = "blocked";
  detail = none;
  dedup_key = some "gfw:blocked:4";
  notified_at = none;
  resolved_at = none;
  acknowledged_at = none;
  acknowledged_by = none;
  created_at = 0;
}

abbrev calm : Session AlertTables
calm = record { tables = quiet; faults = λ n. false; calls = 0 }

-- The third call fails.
abbrev shaky : Session AlertTables
shaky = record { tables = quiet; faults = λ n. n == 2; calls = 0 }

all_acts-Deduped_example :
    Deduped "gfw:blocked:4"
      (all_acts (fires blocked_alert ∷ waits 100 ∷ fires blocked_alert ∷ []) shaky).tables
unfolding count_where
all_acts-Deduped_example =
    all_acts-Deduped "gfw:blocked:4" (fires blocked_alert ∷ waits 100 ∷ fires blocked_alert ∷ [])
      shaky (λ e. absurd (ground (arith, (eq_iff "gfw:blocked:4" "").1 e))) (omega arith)

fire-Notifies_example : Ended (fire blocked_alert calm) (λ t.
    sent 7 3 t ≡ sent 7 3 quiet + one_if (any (goes_to 7) (matching_rules blocked_alert quiet)))
unfolding is_storable any
fire-Notifies_example = fire-Notifies 7 blocked_alert calm refl refl (λ n. refl)

resolve-Reopens_example : Ended ((resolve "gfw:blocked:4" >> fire blocked_alert) calm) (λ t.
    sent 7 3 t ≡ sent 7 3 quiet + one_if (any (goes_to 7) (matching_rules blocked_alert quiet)))
unfolding is_storable any
resolve-Reopens_example = resolve-Reopens 7 "gfw:blocked:4" blocked_alert calm refl refl (λ n. refl)

abbrev hello : Message
hello = record { subject = "blocked"; body = "blocked"; severity = "P1" }

abbrev refuses : String → String → Message → Option String
refuses type config m = some "timeout"

dispatch_by_channel_id-Records_example :
    Ran
      (dispatch_by_channel_id (λ j. none) refuses 7 (some 3) hello calm)
      tt
      (with_history (history_row 7 (some 3) "failed" "blocked" "timeout") quiet)
unfolding first any
dispatch_by_channel_id-Records_example =
    dispatch_by_channel_id-Records (λ j. none) refuses pager 7 (some 3) hello calm refl refl
      (λ n. refl)
