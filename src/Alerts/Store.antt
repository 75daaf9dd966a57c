-- ===== src/Alerts/Store.antt =====
-- store/postgres/alert.go: the statements on alert events and the choice of rules.
use Prim.Native.String.{count as text_length}
use domain_lifecycle_deploym.Base.{
  ℕ, suc, ◌+◌, String, str_eq, Bool, true, false, ◌&&◌, Option, none, some, List, [], ◌∷◌, ◌++◌,
  ◌==◌, ltb, leb, if◌then◌else◌, any, first, select, update_where,
}
use domain_lifecycle_deploym.Base.Exec.{Res, ok, err, query, reads, writes}
use domain_lifecycle_deploym.Alerts.Tables.{
  AlertEvent, NotificationRule, AlertTables, AlertError, call_failed, constraint_violated,
  alert_not_found, AlertDb,
}

-- `dedup_key = $1`, where NULL is equal to nothing.
abbrev pub is_key : String → Option String → Bool
is_key key none = false
is_key key (some k) = str_eq k key

abbrev pub has_key : String → AlertEvent → Bool
has_key key e = is_key key e.dedup_key

abbrev pub unresolved : AlertEvent → Bool
unresolved e = elim e.resolved_at [ none ↦ true | some t ↦ false ]

-- `created_at > NOW() - window`.
abbrev pub recent : ℕ → ℕ → AlertEvent → Bool
recent now window e = ltb now (e.created_at + window)

abbrev pub blocks : String → ℕ → ℕ → AlertEvent → Bool
blocks key now window e = has_key key e && unresolved e && recent now window e

unfoldable pub exists_active_dedup_key : String → ℕ → AlertDb Bool
unfolding reads any
exists_active_dedup_key key window =
    reads call_failed (λ t. ok (any (blocks key t.now window) t.alerts))

abbrev pub alert_severities : List String
alert_severities = "P1" ∷ "P2" ∷ "P3" ∷ "INFO" ∷ []

abbrev pub alert_sources : List String
alert_sources = "probe" ∷ "drift" ∷ "expiry" ∷ "agent" ∷ "manual" ∷ "system" ∷ "gfw" ∷ []

abbrev pub is_null_or : (String → Bool) → Option String → Bool
is_null_or p none = true
is_null_or p (some s) = p s

-- The checks, types and lengths of the columns.
unfoldable pub is_storable : (String → Bool) → AlertEvent → Bool
unfolding any
is_storable is_json e =
    any (str_eq e.severity) alert_severities
    && any (str_eq e.source) alert_sources
    && leb (text_length e.target_kind) 32
    && leb (text_length e.title) 200
    && is_null_or is_json e.detail
    && is_null_or (λ key. leb (text_length key) 200) e.dedup_key

abbrev pub stored_alert : AlertEvent → AlertTables → AlertEvent
stored_alert e t = record e {
  id = t.next_id;
  notified_at = none;
  resolved_at = none;
  acknowledged_at = none;
  acknowledged_by = none;
  created_at = t.now;
}

abbrev pub alert_added : AlertEvent → AlertTables → AlertTables
alert_added e t = record t { next_id = suc t.next_id; alerts = t.alerts ++ stored_alert e t ∷ [] }

-- Returns the row, whose id the caller's event then has.
unfoldable pub insert_alert : AlertEvent → AlertDb AlertEvent
unfolding query is_storable
insert_alert e = query call_failed (λ t.
    if is_storable t.is_json e
    then (ok (stored_alert e t), alert_added e t)
    else (err constraint_violated, t))

abbrev pub set_alerts : (AlertEvent → Bool) → (AlertEvent → AlertEvent) → AlertTables → AlertTables
set_alerts p f t = record t { alerts = update_where p f t.alerts }

unfoldable pub mark_notified : ℕ → AlertDb Unit
unfolding writes
mark_notified id =
    writes call_failed
      (λ t. set_alerts (λ e. e.id == id) (λ e. record e { notified_at = some t.now }) t)

abbrev pub resolvable : String → AlertEvent → Bool
resolvable key e = has_key key e && unresolved e

unfoldable pub resolve_by_dedup_key : String → AlertDb Unit
unfolding writes
resolve_by_dedup_key key =
    writes call_failed
      (λ t. set_alerts (resolvable key) (λ e. record e { resolved_at = some t.now }) t)

-- An UPDATE that touches no row is an error.
abbrev pub updated_or_missing :
    (AlertEvent → Bool)
    → (AlertEvent → AlertEvent)
    → AlertTables
    → Res AlertError Unit × AlertTables
updated_or_missing p f t =
    if any p t.alerts then (ok tt, set_alerts p f t) else (err alert_not_found, t)

unfoldable pub resolve_alert : ℕ → AlertDb Unit
unfolding query any
resolve_alert id = query call_failed (λ t.
    updated_or_missing (λ e. e.id == id && unresolved e)
      (λ e. record e { resolved_at = some t.now }) t)

abbrev pub unacknowledged : AlertEvent → Bool
unacknowledged e = elim e.acknowledged_at [ none ↦ true | some t ↦ false ]

unfoldable pub acknowledge : ℕ → ℕ → AlertDb Unit
unfolding query any
acknowledge id user = query call_failed (λ t.
    updated_or_missing (λ e. e.id == id && unacknowledged e)
      (λ e. record e { acknowledged_at = some t.now; acknowledged_by = some user }) t)

unfoldable pub find_alert : ℕ → AlertDb AlertEvent
unfolding reads first
find_alert id =
    reads call_failed
      (λ t. elim (first (λ e. e.id == id) t.alerts) [ none ↦ err alert_not_found | some e ↦ ok e ])

-- A key that is not in the map is `none`.
unfoldable pub severity_rank : String → Option ℕ
severity_rank s =
    if str_eq s "P1"
    then some 4
    else if str_eq s "P2"
    then some 3
    else if str_eq s "P3"
    then some 2
    else if str_eq s "INFO"
    then some 1
    else none

abbrev pub rank_or_zero : Option ℕ → ℕ
rank_or_zero none = 0
rank_or_zero (some n) = n

-- `column IS NULL OR column = $n`.
abbrev pub free_or : Option String → String → Bool
free_or none s = true
free_or (some t) s = str_eq t s

-- `target_id = $3`, where NULL is equal to nothing.
abbrev pub same_id : ℕ → Option ℕ → Bool
same_id i none = false
same_id i (some j) = i == j

abbrev pub target_matches : NotificationRule → String → Option ℕ → Bool
target_matches r kind id = elim r.target_type [
  | none ↦ true
  | some k ↦ str_eq k kind && elim r.target_id [ none ↦ true | some i ↦ same_id i id ]
]

-- The WHERE clause.
unfoldable pub rule_selected : String → String → Option ℕ → NotificationRule → Bool
rule_selected type kind id r = r.enabled && free_or r.alert_type type && target_matches r kind id

-- The filter of the loop; a rule with an unknown minimum never matches.
unfoldable pub severe_enough : String → NotificationRule → Bool
unfolding severity_rank
severe_enough severity r = elim (severity_rank r.min_severity) [
  | none ↦ false
  | some n ↦ leb n (rank_or_zero (severity_rank severity))
]

abbrev pub matching_rules : AlertEvent → AlertTables → List NotificationRule
matching_rules e t =
    select (severe_enough e.severity)
      (select (rule_selected e.source e.target_kind e.target_id) t.rules)

unfoldable pub list_matching_rules : AlertEvent → AlertDb (List NotificationRule)
unfolding reads select severe_enough rule_selected
list_matching_rules e = reads call_failed (λ t. ok (matching_rules e t))
