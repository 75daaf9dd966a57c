-- ===== src/Alerts/Engine.antt =====
-- internal/alert/engine.go: firing and resolving alerts.
use domain_lifecycle_deploym.Base.{
  ℕ, suc, String, str_eq, Bool, false, Option, none, some, List, [], ◌∷◌, ◌++◌, ◌==◌, ltb,
  if◌then◌else◌, any,
}
use domain_lifecycle_deploym.Base.Exec.{pure, writes, ignore, handle, ◌>>=◌}
use domain_lifecycle_deploym.Alerts.Tables.{
  AlertEvent, NotificationRule, NotifySendPayload, call_failed, AlertDb,
}
use domain_lifecycle_deploym.Alerts.Store.{
  exists_active_dedup_key, insert_alert, mark_notified, resolve_by_dedup_key, list_matching_rules,
}

abbrev pub dedup_window : ℕ
dedup_window = 3600

unfoldable pub severity_to_level : String → String
severity_to_level s =
    if str_eq s "P1"
    then "critical"
    else if str_eq s "P2"
    then "error"
    else if str_eq s "P3"
    then "warning"
    else "info"

abbrev pub notify_payload : AlertEvent → ℕ → NotifySendPayload
notify_payload e channel = record {
  channel_id = channel;
  alert_event_id = e.id;
  severity = severity_to_level e.severity;
}

unfoldable pub enqueue_notify : AlertEvent → ℕ → AlertDb Unit
unfolding writes severity_to_level
enqueue_notify e channel =
    writes call_failed (λ t. record t { queue = t.queue ++ notify_payload e channel ∷ [] })

-- One rule: `seen` are the channels of the rules before it, `n` counts what is enqueued so far.
abbrev pub notify_rule :
    AlertEvent → NotificationRule → List ℕ → ℕ → (List ℕ → ℕ → AlertDb ℕ) → AlertDb ℕ
notify_rule e r seen n rest =
    if any (λ c. c == r.channel_id) seen
    then rest seen n
    else handle (enqueue_notify e r.channel_id) (λ _. rest (r.channel_id ∷ seen) n)
        (λ _. rest (r.channel_id ∷ seen) (suc n))

unfoldable pub notify_rules : AlertEvent → List NotificationRule → List ℕ → ℕ → AlertDb ℕ
unfolding enqueue_notify handle any pure
notify_rules e [] seen n = pure n
notify_rules e (r ∷ rs) seen n = notify_rule e r seen n (notify_rules e rs)

-- The rest of Fire once the event is stored; `e` has the id of its row. Errors are only logged.
unfoldable pub fan_out : AlertEvent → AlertDb Unit
unfolding notify_rules list_matching_rules mark_notified ignore handle pure ◌>>=◌
fan_out e =
    handle (list_matching_rules e) (λ _. pure tt)
      (λ rules. do
        n ← notify_rules e rules [] 0
        if ltb 0 n then ignore (mark_notified e.id) else pure tt)

-- The check of Fire, made only at a key that is set and not empty.
abbrev pub duplicate_of : Option String → AlertDb Bool
duplicate_of none = pure false
duplicate_of (some k) = if str_eq k "" then pure false else exists_active_dedup_key k dedup_window

unfoldable pub fire : AlertEvent → AlertDb Unit
unfolding exists_active_dedup_key insert_alert fan_out pure ◌>>=◌
fire e = do
  exists ← duplicate_of e.dedup_key
  if exists then pure tt else (do stored ← insert_alert e; fan_out stored)

unfoldable pub resolve : String → AlertDb Unit
unfolding resolve_by_dedup_key
resolve key = resolve_by_dedup_key key
