-- ===== src/Alerts/Deduplication.antt =====
-- internal/alert/engine.go: a key has at most one alert that suppresses others, whatever calls fail.
use domain_lifecycle_deploym.Base.{
  ℕ, suc, ◌+◌, ◌≤◌, String, str_eq, eq_iff, Bool, true, false, Option, none, some, List, [], ◌∷◌,
  ◌≡◌, ◌≢◌, subst, arith, ◌==◌, ltb, any, count_where, count_where-append, count_where_mono,
  count_where-update_where, count_where-any,
}
use domain_lifecycle_deploym.Base.Exec.{ok, Session, with_tables}
use domain_lifecycle_deploym.Base.Always.{
  Always, Always-pure, Always-query, Always-reads, Always-writes, Always-bind, Always-handle,
  Always-ignore, Always-if, Always-end, Always-before, Post, Post-if,
}
use domain_lifecycle_deploym.Alerts.Tables.{
  AlertEvent, NotificationRule, AlertTables, call_failed, AlertDb,
}
use domain_lifecycle_deploym.Alerts.Store.{
  has_key, is_key, blocks, resolvable, set_alerts, alert_added, stored_alert, is_storable,
  exists_active_dedup_key, insert_alert, mark_notified, resolve_by_dedup_key, resolve_alert,
  acknowledge, list_matching_rules, updated_or_missing,
}
use domain_lifecycle_deploym.Alerts.Engine.{
  dedup_window, enqueue_notify, notify_rules, fan_out, duplicate_of, fire, resolve,
}

-- The alerts of a key that would suppress another.
abbrev pub blocking_count : String → AlertTables → ℕ
blocking_count key t = count_where (blocks key t.now dedup_window) t.alerts

abbrev pub Deduped : String → AlertTables → Type 0
Deduped key t = blocking_count key t ≤ 1

set_alerts-Deduped :
    (key : String) (p : AlertEvent → Bool) (f : AlertEvent → AlertEvent) (t : AlertTables)
    → ((e : AlertEvent)
        → blocks key t.now dedup_window (f e) ≡ true
        → blocks key t.now dedup_window e ≡ true)
    → Deduped key t
    → Deduped key (set_alerts p f t)
set_alerts-Deduped key p f t h k =
    omega (arith, count_where-update_where (blocks key t.now dedup_window) p f t.alerts h)

alert_added-Deduped :
    (key : String) (e : AlertEvent) (t : AlertTables)
    → Deduped key t
    → (has_key key e ≡ true → blocking_count key t ≡ 0)
    → Deduped key (alert_added e t)
unfolding count_where
alert_added-Deduped key e t h k =
    ground (
      arith,
      k,
      count_where-append (blocks key t.now dedup_window) t.alerts (stored_alert e t ∷ []),
    )

-- Everything after the INSERT leaves the alerts of a key as they are, but for `notified_at`.
module _ (key : String) where
  abbrev Dd : AlertTables → Type 0
  Dd t = Deduped key t

  enqueue_notify-Deduped : (e : AlertEvent) (c : ℕ) → Always (enqueue_notify e c) Dd (λ _. Dd) Dd
  unfolding enqueue_notify
  enqueue_notify-Deduped e c = Always-writes call_failed _ (λ t h. h) (λ t h. h)

  notify_rules-Deduped :
      (e : AlertEvent) (rs : List NotificationRule) (seen : List ℕ) (n : ℕ)
      → Always (notify_rules e rs seen n) Dd (λ _. Dd) Dd
  unfolding notify_rules
  notify_rules-Deduped e [] seen n = Always-pure n (λ t h. h)
  notify_rules-Deduped e (r ∷ rs) seen n =
      Always-if (any (λ c. c == r.channel_id) seen) _ _ (λ _. notify_rules-Deduped e rs seen n)
        (λ _.
          Always-handle _ _ _ (enqueue_notify-Deduped e r.channel_id)
            (λ _. notify_rules-Deduped e rs (r.channel_id ∷ seen) n)
            (λ _. notify_rules-Deduped e rs (r.channel_id ∷ seen) (suc n)))

  mark_notified-Deduped : (id : ℕ) → Always (mark_notified id) Dd (λ _. Dd) Dd
  unfolding mark_notified
  mark_notified-Deduped id =
      Always-writes call_failed _ (λ t h. h)
        (λ t h. set_alerts-Deduped key (λ e. e.id == id) _ t (λ e k. k) h)

  fan_out-Deduped : (e : AlertEvent) → Always (fan_out e) Dd (λ _. Dd) Dd
  unfolding fan_out list_matching_rules
  fan_out-Deduped e =
      Always-handle {R = λ _. Dd} {Y = Dd} _ _ _ (Always-reads call_failed _ (λ t h. h) (λ t h. h))
        (λ _. Always-pure tt (λ t h. h))
        (λ rules. Always-bind _ _ (notify_rules-Deduped e rules [] 0) (λ n.
          Always-if (ltb 0 n) _ _ (λ _. Always-ignore _ (mark_notified-Deduped e.id))
            (λ _. Always-pure tt (λ t h. h))))

  abbrev Free : AlertEvent → AlertTables → Type 0
  Free e t = Dd t × (has_key key e ≡ true → blocking_count key t ≡ 0)

  insert_alert-Deduped : (e : AlertEvent) → Always (insert_alert e) (Free e) (λ _. Dd) Dd
  unfolding insert_alert
  insert_alert-Deduped e =
      Always-query call_failed _ (λ t h. h.0)
        (λ t h.
          Post-if (λ _. Dd) Dd (is_storable t.is_json e) _ _
            (λ _. alert_added-Deduped key e t h.0 h.1) (λ _. h.0))

  -- What the check of Fire finds out.
  duplicate_of-Deduped :
      (o : Option String)
      → key ≢ ""
      → Always
          (duplicate_of o)
          Dd
          (λ found t. Dd t × (found ≡ false → is_key key o ≡ true → blocking_count key t ≡ 0))
          Dd
  unfolding exists_active_dedup_key
  duplicate_of-Deduped none h = Always-pure false (λ t d. (d, λ q r. absurd (ground arith)))
  duplicate_of-Deduped (some k) h =
      Always-if (str_eq k "") _ _
        (λ empty.
          Always-pure false (λ t d. (d, λ q r. absurd (ground (arith, eq_iff k "", eq_iff k key)))))
        (λ _.
          Always-reads call_failed _ (λ t d. d)
            (λ t d. (
              d,
              λ q r.
                  subst (λ j. blocking_count j t ≡ 0) ((eq_iff k key).0 r)
                    (count_where-any (blocks k t.now dedup_window) t.alerts q),
            )))

  fire-Deduped : (e : AlertEvent) → key ≢ "" → Always (fire e) Dd (λ _. Dd) Dd
  unfolding fire
  fire-Deduped e h = Always-bind _ _ (duplicate_of-Deduped e.dedup_key h) (λ found.
      Always-if found _ _ (λ old. Always-pure tt (λ t q. q.0))
        (λ new.
          Always-before _ (λ t q. (q.0, q.1 new))
            (Always-bind _ _ (insert_alert-Deduped e) (λ stored. fan_out-Deduped stored))))

  resolve_by_dedup_key-Deduped : (k : String) → Always (resolve_by_dedup_key k) Dd (λ _. Dd) Dd
  unfolding resolve_by_dedup_key
  resolve_by_dedup_key-Deduped k =
      Always-writes call_failed _ (λ t d. d)
        (λ t d. set_alerts-Deduped key (resolvable k) _ t (λ e r. absurd (ground arith)) d)

  updated-Deduped :
      (p : AlertEvent → Bool) (f : AlertEvent → AlertEvent) (t : AlertTables)
      → ((e : AlertEvent)
          → blocks key t.now dedup_window (f e) ≡ true
          → blocks key t.now dedup_window e ≡ true)
      → Dd t
      → Post (λ _. Dd) Dd (updated_or_missing p f t).0 (updated_or_missing p f t).1
  updated-Deduped p f t h d =
      Post-if (λ _. Dd) Dd (any p t.alerts) _ _ (λ _. set_alerts-Deduped key p f t h d) (λ _. d)

  resolve_alert-Deduped : (id : ℕ) → Always (resolve_alert id) Dd (λ _. Dd) Dd
  unfolding resolve_alert
  resolve_alert-Deduped id =
      Always-query call_failed _ (λ t d. d)
        (λ t d. updated-Deduped _ _ t (λ e r. absurd (ground arith)) d)

  acknowledge-Deduped : (id user : ℕ) → Always (acknowledge id user) Dd (λ _. Dd) Dd
  unfolding acknowledge
  acknowledge-Deduped id user =
      Always-query call_failed _ (λ t d. d) (λ t d. updated-Deduped _ _ t (λ e r. r) d)

-- What may happen to the alerts: the clock moves between calls.
pub data AlertAction : Type 0 where
  fires : AlertEvent → AlertAction
  resolves : String → AlertAction
  resolves_one : ℕ → AlertAction
  acknowledges : ℕ → ℕ → AlertAction
  waits : ℕ → AlertAction

abbrev pub act : AlertAction → AlertDb Unit
act (fires e) = fire e
act (resolves key) = resolve key
act (resolves_one id) = resolve_alert id
act (acknowledges id user) = acknowledge id user
act (waits n) = λ d. (ok tt, with_tables d (record d.tables { now = d.tables.now + n }))

unfoldable pub all_acts : List AlertAction → Session AlertTables → Session AlertTables
all_acts [] d = d
all_acts (a ∷ as') d = all_acts as' (act a d).1

act-Deduped :
    (key : String) (a : AlertAction) (d : Session AlertTables)
    → key ≢ ""
    → Deduped key d.tables
    → Deduped key (act a d).1.tables
unfolding resolve
act-Deduped key (fires e) d h k = Always-end _ d k (fire-Deduped key e h)
act-Deduped key (resolves j) d h k = Always-end _ d k (resolve_by_dedup_key-Deduped key j)
act-Deduped key (resolves_one id) d h k = Always-end _ d k (resolve_alert-Deduped key id)
act-Deduped key (acknowledges id user) d h k = Always-end _ d k (acknowledge-Deduped key id user)
act-Deduped key (waits n) d h k =
    let t = d.tables in
    omega (
      arith,
      count_where_mono (blocks key (t.now + n) dedup_window) (blocks key t.now dedup_window)
          t.alerts (λ e r. ground arith),
    )

-- In every sequence of firing, resolving, acknowledging and waiting, whatever calls fail, a key that
-- is not empty keeps at most one unresolved alert of the last hour, if it has no more at the start.
pub all_acts-Deduped :
    (key : String) (actions : List AlertAction) (d : Session AlertTables)
    → key ≢ ""
    → Deduped key d.tables
    → Deduped key (all_acts actions d).tables
unfolding all_acts
all_acts-Deduped key [] d h k = k
all_acts-Deduped key (a ∷ as') d h k =
    all_acts-Deduped key as' (act a d).1 h (act-Deduped key a d h k)
