-- ===== src/Alerts/Delivery.antt =====
-- internal/alert/dispatcher.go: what the history says of a notify task.
use domain_lifecycle_deploym.Base.{
  ℕ, String, str_eq, Bool, true, false, Option, none, some, [], ◌∷◌, ◌++◌, ◌≡◌, refl, ◌==◌,
  if◌then◌else◌, any, first, first_holds, subst, ==→eq,
}
use domain_lifecycle_deploym.Base.Exec.{Session, pure}
use domain_lifecycle_deploym.Base.Runs.{
  Ran, Runs, Runs-reads, Runs-writes, Runs-ignore, Runs-then, Runs-handle,
}
use domain_lifecycle_deploym.Alerts.Tables.{
  NotificationChannel, NotificationHistory, AlertTables, call_failed,
}
use domain_lifecycle_deploym.Alerts.Dispatcher.{
  Message, get_channel, insert_history, history_row, record_history, sender_types, sent_or_failed,
  send_to_channel, dispatch_by_channel_id,
}

-- What the history row of a dispatch says: the first part is the status, the second the error.
abbrev pub outcome : Bool → Option String → String × String
outcome false failure = ("suppressed", "channel disabled")
outcome true none = ("sent", "")
outcome true (some e) = ("failed", e)

abbrev pub with_history : NotificationHistory → AlertTables → AlertTables
with_history h t = record t { history = t.history ++ h ∷ [] }

record_history-Runs :
    (channel : ℕ) (alert : Option ℕ) (status message error : String) (s : AlertTables)
    → Runs
        (record_history channel alert status message error)
        s
        tt
        (with_history (history_row channel alert status message error) s)
unfolding record_history insert_history
record_history-Runs channel alert status message error s =
    Runs-ignore _ s tt _
      (Runs-writes call_failed (with_history (history_row channel alert status message error)) s)

module _ (description : String → Option String)
    (send : String → String → Message → Option String) where
  sent-Runs :
      (c : NotificationChannel) (alert : Option ℕ) (msg : Message) (failure : Option String)
      (s : AlertTables)
      → Runs (sent_or_failed description send c alert msg failure) s tt (
          with_history
            (history_row c.id alert (outcome true failure).0 msg.subject (outcome true failure).1)
            s)
  sent-Runs c alert msg none s = record_history-Runs c.id alert "sent" msg.subject "" s
  sent-Runs c alert msg (some e) s = record_history-Runs c.id alert "failed" msg.subject e s

  channel-Runs :
      (c : NotificationChannel) (channel : ℕ) (alert : Option ℕ) (msg : Message) (b : Bool)
      (s : AlertTables)
      → c.id ≡ channel
      → any (str_eq c.channel_type) sender_types ≡ true
      → Runs
          (if b
            then send_to_channel description send c alert msg
            else record_history channel alert "suppressed" msg.subject "channel disabled")
          s
          tt
          (with_history
            (history_row channel alert
              (outcome b (send c.channel_type c.config msg)).0
              msg.subject
              (outcome b (send c.channel_type c.config msg)).1)
            s)
  unfolding send_to_channel
  channel-Runs c channel alert msg false s same h =
      record_history-Runs channel alert "suppressed" msg.subject "channel disabled" s
  channel-Runs c channel alert msg true s same h =
      let o = outcome true (send c.channel_type c.config msg) in
      Runs-then _ _ (pure tt) s tt _ h (
        subst
          (λ i.
            Runs (sent_or_failed description send c alert msg (send c.channel_type c.config msg)) s
              tt (with_history (history_row i alert o.0 msg.subject o.1) s))
          same (sent-Runs c alert msg (send c.channel_type c.config msg) s))

  -- When no call fails, sending an alert to a channel of a known type adds one row to the history of
  -- that channel and changes nothing else; the row says "suppressed" for a disabled channel, and
  -- otherwise "sent", or "failed" with the sender's error.
  pub dispatch_by_channel_id-Records :
      (c : NotificationChannel) (channel : ℕ) (alert : Option ℕ) (msg : Message)
      (d : Session AlertTables)
      → first (λ c. c.id == channel) d.tables.channels ≡ some c
      → any (str_eq c.channel_type) sender_types ≡ true
      → ((n : ℕ) → d.faults n ≡ false)
      → Ran (dispatch_by_channel_id description send channel alert msg d) tt (
          with_history
            (history_row channel alert
              (outcome c.enabled (send c.channel_type c.config msg)).0
              msg.subject
              (outcome c.enabled (send c.channel_type c.config msg)).1)
            d.tables)
  unfolding dispatch_by_channel_id get_channel
  dispatch_by_channel_id-Records c channel alert msg d h k q =
      let s = d.tables in
      let same = ==→eq c.id channel (first_holds (λ c. c.id == channel) s.channels c h) in
      (Runs-handle _ _ _ s s _ c tt (Runs-reads call_failed _ s c (rw h refl))
          (channel-Runs c channel alert msg c.enabled s same k)).at
        d refl q
