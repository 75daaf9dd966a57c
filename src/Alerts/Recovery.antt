-- ===== src/Alerts/Recovery.antt =====
-- internal/alert/engine.go: Resolve, and an alert that is fired after it.
use domain_lifecycle_deploym.Base.{
  ℕ, ◌+◌, String, true, false, some, List, [], ◌∷◌, ◌≡◌, refl, arith, any, update_where, sym, subst,
}
use domain_lifecycle_deploym.Base.Exec.{Session, ◌>>◌}
use domain_lifecycle_deploym.Base.Runs.{Runs-writes}
use domain_lifecycle_deploym.Base.Ends.{Ended, Ends-after}
use domain_lifecycle_deploym.Alerts.Tables.{AlertEvent, AlertTables, call_failed}
use domain_lifecycle_deploym.Alerts.Store.{
  blocks, resolvable, set_alerts, is_storable, resolve_by_dedup_key, matching_rules,
}
use domain_lifecycle_deploym.Alerts.Engine.{dedup_window, fire, resolve}
use domain_lifecycle_deploym.Alerts.Routing.{
  sent, goes_to, one_if, unmatched, fire_new-Ends, duplicate_of-Runs,
}

abbrev pub resolved_at : String → AlertTables → AlertTables
resolved_at key t = set_alerts (resolvable key) (λ e. record e { resolved_at = some t.now }) t

update-resolves :
    (key : String) (now window at : ℕ) (es : List AlertEvent)
    → any
        (blocks key now window)
        (update_where (resolvable key) (λ e. record e { resolved_at = some at }) es)
      ≡ false
unfolding any update_where
update-resolves key now window at [] = refl
update-resolves key now window at (e ∷ es) = ground (arith, update-resolves key now window at es)

-- When no call fails, an alert that is fired right after its key was resolved is not suppressed: it
-- is sent once to every channel that a matching rule names, and to no other.
pub resolve-Reopens :
    (channel : ℕ) (key : String) (e : AlertEvent) (d : Session AlertTables)
    → e.dedup_key ≡ some key
    → is_storable d.tables.is_json e ≡ true
    → ((n : ℕ) → d.faults n ≡ false)
    → Ended ((resolve key >> fire e) d) (λ t.
      sent channel d.tables.next_id t
      ≡ sent channel d.tables.next_id d.tables
        + one_if (any (goes_to channel) (matching_rules e d.tables)))
unfolding resolve resolve_by_dedup_key
resolve-Reopens channel key e d h k q =
    let s = d.tables in
    let t = resolved_at key s in
    let open' = update-resolves key s.now dedup_window s.now s.alerts in
    (Ends-after _ _ s t tt (Runs-writes call_failed (resolved_at key) s) (
        fire_new-Ends channel e t k (
          duplicate_of-Runs e.dedup_key t
            (subst (λ o. unmatched o t ≡ true) (sym h) (ground arith))))).at
      d refl q
