-- ===== src/Alerts/Routing.antt =====
-- internal/alert/engine.go: who is told of an alert that is fired, when no call fails.
use domain_lifecycle_deploym.Base.{
  ℕ, suc, ◌+◌, String, str_eq, eq_iff, Bool, true, false, not, ◌&&◌, ◌||◌, Option, none, some, List,
  [], ◌∷◌, ◌++◌, ◌≡◌, ◌≢◌, refl, sym, subst, ==→eq, arith, ◌==◌, ltb, any, count_where,
  count_where-append, Bool-cases, inl, inr, ap,
}
use domain_lifecycle_deploym.Base.Exec.{ok, Session, pure}
use domain_lifecycle_deploym.Base.Runs.{
  Ran, Runs, Runs-pure, Runs-then, Runs-else, Runs-bind, Runs-reads, Runs-query, Runs-writes,
}
use domain_lifecycle_deploym.Base.Ends.{
  Ended, Ends, Ends-Runs, Ends-if, Ends-ignore, Ends-pure, Ends-handle, Ends-bind, Ends-weaken,
  Ends-conclude, Ends-after, Ends-handle_after,
}
use domain_lifecycle_deploym.Alerts.Tables.{
  AlertEvent, NotificationRule, NotifySendPayload, AlertTables, call_failed,
}
use domain_lifecycle_deploym.Alerts.Store.{
  blocks, alert_added, stored_alert, is_storable, exists_active_dedup_key, insert_alert,
  mark_notified, list_matching_rules, matching_rules,
}
use domain_lifecycle_deploym.Alerts.Engine.{
  dedup_window, enqueue_notify, notify_payload, notify_rules, fan_out, duplicate_of, fire,
}

abbrev pub addressed : ℕ → ℕ → NotifySendPayload → Bool
addressed channel alert p = p.channel_id == channel && p.alert_event_id == alert

-- The tasks that send an alert to a channel.
abbrev pub sent : ℕ → ℕ → AlertTables → ℕ
sent channel alert t = count_where (addressed channel alert) t.queue

abbrev pub goes_to : ℕ → NotificationRule → Bool
goes_to channel r = r.channel_id == channel

abbrev pub one_if : Bool → ℕ
one_if true = 1
one_if false = 0

module _ (channel : ℕ) (e : AlertEvent) where
  enqueue_notify-Ends :
      (c q : ℕ)
      → Ends
          (enqueue_notify e c)
          (λ t. sent channel e.id t ≡ q)
          (λ t. sent channel e.id t ≡ q + one_if (c == channel))
  unfolding enqueue_notify count_where
  enqueue_notify-Ends c q = Ends-Runs _ (λ t h. (
    tt,
    record t { queue = t.queue ++ notify_payload e c ∷ [] },
    Runs-writes call_failed _ t,
    ground (arith, count_where-append (addressed channel e.id) t.queue (notify_payload e c ∷ [])),
  ))

  seen_same :
      (c : ℕ) (seen : List ℕ) (b : Bool)
      → any (λ x. x == c) seen ≡ b
      → (c == channel) ≡ true
      → any (λ x. x == channel) seen ≡ b
  seen_same c seen b h k = subst (λ z. any (λ x. x == z) seen ≡ b) (==→eq c channel k) h

  -- A channel that was not seen gets one task if one of the rules has it.
  notify_rules-Ends :
      (rs : List NotificationRule) (seen : List ℕ) (n q : ℕ)
      → Ends
          (notify_rules e rs seen n)
          (λ t. sent channel e.id t ≡ q)
          (λ t.
            sent channel e.id t
            ≡ q + one_if (any (goes_to channel) rs && not (any (λ c. c == channel) seen)))
  unfolding notify_rules any
  notify_rules-Ends [] seen n q = Ends-weaken _ (λ t h. omega arith) (Ends-pure n)
  notify_rules-Ends (r ∷ rs) seen n q =
      Ends-if (any (λ c. c == r.channel_id) seen) _ _
        (λ old.
          Ends-conclude _ (λ t h. ground (arith, seen_same r.channel_id seen true old))
            (notify_rules-Ends rs seen n q))
        (λ new. Ends-handle _ _ _ (enqueue_notify-Ends r.channel_id q) (λ _.
          Ends-conclude _ (λ t h. ground (arith, seen_same r.channel_id seen false new))
            (notify_rules-Ends rs (r.channel_id ∷ seen) (suc n)
              (q + one_if (r.channel_id == channel)))))

  -- Only the queue counts here.
  mark_notified-Ends :
      (id q : ℕ)
      → Ends (mark_notified id) (λ t. sent channel e.id t ≡ q) (λ t. sent channel e.id t ≡ q)
  unfolding mark_notified
  mark_notified-Ends id q = Ends-Runs _ (λ t h. (tt, _, Runs-writes call_failed _ t, h))

  notify_all-Ends :
      (rs : List NotificationRule) (q : ℕ)
      → Ends
          (notify_rules e rs [] 0)
          (λ t. sent channel e.id t ≡ q)
          (λ t. sent channel e.id t ≡ q + one_if (any (goes_to channel) rs))
  unfolding any
  notify_all-Ends rs q = Ends-conclude _ (λ t h. ground (arith, h)) (notify_rules-Ends rs [] 0 q)

  fan_out-Ends :
      (s : AlertTables)
      → Ends
          (fan_out e)
          (λ t. t ≡ s)
          (λ t.
            sent channel e.id t
            ≡ sent channel e.id s + one_if (any (goes_to channel) (matching_rules e s)))
  unfolding fan_out list_matching_rules
  fan_out-Ends s =
      let q = sent channel e.id s in
      let rules = matching_rules e s in
      Ends-handle_after _ _ _ s s rules (Runs-reads call_failed _ s rules refl) (
        Ends-weaken _ (λ t h. ap (sent channel e.id) h)
          (Ends-bind _ _ (notify_all-Ends rules q) (λ n.
            Ends-if (ltb 0 n) _ _ (λ _. Ends-ignore _ (mark_notified-Ends e.id _))
              (λ _. Ends-pure tt))))

-- The check of Fire finds no alert of the key.
abbrev pub unmatched : Option String → AlertTables → Bool
unmatched none t = true
unmatched (some k) t = str_eq k "" || not (any (blocks k t.now dedup_window) t.alerts)

pub duplicate_of-Runs :
    (o : Option String) (s : AlertTables) → unmatched o s ≡ true → Runs (duplicate_of o) s false s
unfolding exists_active_dedup_key
duplicate_of-Runs none s h = Runs-pure false s
duplicate_of-Runs (some k) s h = elim (Bool-cases (str_eq k "")) [
  | inl empty ↦ Runs-then _ _ _ s _ s empty (Runs-pure false s)
  | inr key ↦ Runs-else _ _ _ s _ s key (Runs-reads call_failed _ s false (ground arith))
]

module _ (channel : ℕ) (e : AlertEvent) where
  insert_alert-Runs :
      (s : AlertTables)
      → is_storable s.is_json e ≡ true
      → Runs (insert_alert e) s (stored_alert e s) (alert_added e s)
  unfolding insert_alert
  insert_alert-Runs s h = Runs-query call_failed _ s _ _ (rw h refl)

  pub fire_new-Ends :
      (s : AlertTables)
      → is_storable s.is_json e ≡ true
      → Runs (duplicate_of e.dedup_key) s false s
      → Ends
          (fire e)
          (λ t. t ≡ s)
          (λ t.
            sent channel s.next_id t
            ≡ sent channel s.next_id s + one_if (any (goes_to channel) (matching_rules e s)))
  unfolding fire
  fire_new-Ends s h k = Ends-after _ _ s s false k (
      Ends-after _ _ s (alert_added e s) (stored_alert e s) (insert_alert-Runs s h)
        (fan_out-Ends channel (stored_alert e s) (alert_added e s)))

  -- An alert that the table accepts and that no alert of its key suppresses is sent exactly once to
  -- every channel that a matching rule names, and to no other, when no call fails.
  pub fire-Notifies :
      (d : Session AlertTables)
      → is_storable d.tables.is_json e ≡ true
      → unmatched e.dedup_key d.tables ≡ true
      → ((n : ℕ) → d.faults n ≡ false)
      → Ended (fire e d) (λ t.
        sent channel d.tables.next_id t
        ≡ sent channel d.tables.next_id d.tables
          + one_if (any (goes_to channel) (matching_rules e d.tables)))
  fire-Notifies d h k q =
      (fire_new-Ends d.tables h (duplicate_of-Runs e.dedup_key d.tables k)).at d refl q

  -- An alert whose key has an unresolved alert of the last hour changes nothing.
  pub fire_suppressed :
      (key : String) (d : Session AlertTables)
      → e.dedup_key ≡ some key
      → key ≢ ""
      → any (blocks key d.tables.now dedup_window) d.tables.alerts ≡ true
      → ((n : ℕ) → d.faults n ≡ false)
      → Ran (fire e d) tt d.tables
  unfolding fire exists_active_dedup_key
  fire_suppressed key d h k p q =
      let s = d.tables in
      let found =
        Runs-else (str_eq key "") (pure false) (exists_active_dedup_key key dedup_window) s true s
          (ground (arith, eq_iff key "")) (Runs-reads call_failed _ s true (ap ok p)) in
      (Runs-bind _ _ s s s true tt (subst (λ o. Runs (duplicate_of o) s true s) (sym h) found)
          (Runs-pure tt s)).at
        d refl q
