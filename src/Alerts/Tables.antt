-- ===== src/Alerts/Tables.antt =====
-- The rows of store/postgres/alert.go and notification.go, the payloads of internal/tasks/payloads.go,
-- and the checks of the table alert_events. The uuid columns are left out.
use domain_lifecycle_deploym.Base.{ℕ, String, Bool, Option, List}
use domain_lifecycle_deploym.Base.Exec.{Exec}

pub record AlertEvent : Type 0 where
  pub id : ℕ
  pub severity : String
  pub source : String
  pub target_kind : String
  pub target_id : Option ℕ
  pub title : String
  pub detail : Option String
  pub dedup_key : Option String
  pub notified_at : Option ℕ
  pub resolved_at : Option ℕ
  pub acknowledged_at : Option ℕ
  pub acknowledged_by : Option ℕ
  pub created_at : ℕ

pub record NotificationRule : Type 0 where
  pub id : ℕ
  pub channel_id : ℕ
  pub alert_type : Option String
  pub min_severity : String
  pub target_type : Option String
  pub target_id : Option ℕ
  pub enabled : Bool

pub record NotificationChannel : Type 0 where
  pub id : ℕ
  pub channel_type : String
  pub config : String
  pub enabled : Bool

pub record NotificationHistory : Type 0 where
  pub channel_id : ℕ
  pub alert_event_id : Option ℕ
  pub status : String
  pub message : Option String
  pub error : Option String

pub record NotifySendPayload : Type 0 where
  pub channel_id : ℕ
  pub alert_event_id : ℕ
  pub severity : String

-- The tables, the clock in seconds, and the queue of tasks to send. `is_json` is what the server
-- takes for JSON, a parameter.
pub record AlertTables : Type 0 where
  pub now : ℕ
  pub next_id : ℕ
  pub alerts : List AlertEvent
  pub rules : List NotificationRule
  pub channels : List NotificationChannel
  pub history : List NotificationHistory
  pub queue : List NotifySendPayload
  pub is_json : String → Bool

pub data AlertError : Type 0 where
  call_failed constraint_violated alert_not_found channel_not_found : AlertError

abbrev pub AlertDb : Type 0 → Type 0
AlertDb A = Exec AlertError AlertTables A
