-- ===== src/Alerts/Dispatcher.antt =====
-- internal/alert/dispatcher.go and the handler of notify tasks in task.go. The senders, which talk to
-- other services, are a parameter that answers with the text of an error; so is the look-up of a
-- description in the JSON of an event.
use Prim.Native.String.{◌++◌ as join}
use domain_lifecycle_deploym.Base.{
  ℕ, String, str_eq, ◌||◌, Option, none, some, List, [], ◌∷◌, ◌++◌, ◌==◌, if◌then◌else◌, any, first,
}
use domain_lifecycle_deploym.Base.Exec.{ok, err, pure, reads, writes, ignore, handle, ◌>>=◌}
use domain_lifecycle_deploym.Alerts.Tables.{
  AlertEvent, NotificationRule, NotificationChannel, NotificationHistory, NotifySendPayload,
  call_failed, channel_not_found, AlertDb,
}
use domain_lifecycle_deploym.Alerts.Store.{find_alert, list_matching_rules}

pub record Message : Type 0 where
  pub subject : String
  pub body : String
  pub severity : String

unfoldable pub get_channel : ℕ → AlertDb NotificationChannel
unfolding reads first
get_channel id = reads call_failed (λ t. elim (first (λ c. c.id == id) t.channels) [
  | none ↦ err channel_not_found
  | some c ↦ ok c
])

unfoldable pub insert_history : NotificationHistory → AlertDb Unit
unfolding writes
insert_history h = writes call_failed (λ t. record t { history = t.history ++ h ∷ [] })

abbrev pub nonempty : String → Option String
nonempty s = if str_eq s "" then none else some s

abbrev pub history_row : ℕ → Option ℕ → String → String → String → NotificationHistory
history_row channel alert status message error = record {
  channel_id = channel;
  alert_event_id = alert;
  status = status;
  message = nonempty message;
  error = nonempty error;
}

-- A failure is only logged.
unfoldable pub record_history : ℕ → Option ℕ → String → String → String → AlertDb Unit
unfolding insert_history ignore
record_history channel alert status message error =
    ignore (insert_history (history_row channel alert status message error))

abbrev pub with_description : String → Option String → String
with_description title none = title
with_description title (some d) = if str_eq d "" then title else join title (join "\n\n" d)

-- The channel types that the dispatcher has senders for.
abbrev pub sender_types : List String
sender_types = "telegram" ∷ "slack" ∷ "webhook" ∷ "email" ∷ []

-- An id of zero is no id.
abbrev pub id_or_none : ℕ → Option ℕ
id_or_none n = if n == 0 then none else some n

module _ (description : String → Option String)
    (send : String → String → Message → Option String) where
  unfoldable pub build_message : AlertEvent → Message
  build_message e = record {
    subject = join "[" (join e.severity (join "] " e.title));
    body = elim e.detail [
      | none ↦ e.title
      | some j ↦
          if str_eq j "" || str_eq j "null"
          then e.title
          else with_description e.title (description j)
    ];
    severity = e.severity;
  }

  abbrev pub sent_or_failed :
      NotificationChannel → Option ℕ → Message → Option String → AlertDb Unit
  sent_or_failed c alert msg none = record_history c.id alert "sent" msg.subject ""
  sent_or_failed c alert msg (some e) = record_history c.id alert "failed" msg.subject e

  unfoldable pub send_to_channel : NotificationChannel → Option ℕ → Message → AlertDb Unit
  unfolding record_history pure any
  send_to_channel c alert msg =
      if any (str_eq c.channel_type) sender_types
      then sent_or_failed c alert msg (send c.channel_type c.config msg)
      else pure tt

  unfoldable pub dispatch_by_channel_id : ℕ → Option ℕ → Message → AlertDb Unit
  unfolding get_channel send_to_channel record_history handle pure
  dispatch_by_channel_id channel alert msg =
      handle (get_channel channel) (λ _. pure tt)
        (λ c.
          if c.enabled
          then send_to_channel c alert msg
          else record_history channel alert "suppressed" msg.subject "channel disabled")

  abbrev pub dispatch_rule :
      AlertEvent → NotificationRule → List ℕ → (List ℕ → AlertDb Unit) → AlertDb Unit
  dispatch_rule e r seen rest =
      if any (λ c. c == r.channel_id) seen
      then rest seen
      else handle (get_channel r.channel_id) (λ _. rest (r.channel_id ∷ seen))
          (λ c.
            (if c.enabled then send_to_channel c (id_or_none e.id) (build_message e) else pure tt)
            >>= λ _. rest (r.channel_id ∷ seen))

  unfoldable pub dispatch_rules : AlertEvent → List NotificationRule → List ℕ → AlertDb Unit
  unfolding get_channel send_to_channel build_message handle any pure ◌>>=◌
  dispatch_rules e [] seen = pure tt
  dispatch_rules e (r ∷ rs) seen = dispatch_rule e r seen (dispatch_rules e rs)

  unfoldable pub dispatch_event : AlertEvent → AlertDb Unit
  unfolding list_matching_rules dispatch_rules handle pure
  dispatch_event e =
      handle (list_matching_rules e) (λ _. pure tt) (λ rules. dispatch_rules e rules [])

  abbrev pub minimal_message : String → Message
  minimal_message severity = record {
    subject = "Alert notification";
    body = "";
    severity = severity;
  }

  unfoldable pub handle_notify_send : NotifySendPayload → AlertDb Unit
  unfolding find_alert dispatch_by_channel_id build_message handle
  handle_notify_send p =
      if p.alert_event_id == 0
      then dispatch_by_channel_id p.channel_id none (minimal_message p.severity)
      else handle (find_alert p.alert_event_id)
          (λ _.
            dispatch_by_channel_id p.channel_id (some p.alert_event_id)
              (minimal_message p.severity))
          (λ e. dispatch_by_channel_id p.channel_id (some p.alert_event_id) (build_message e))
