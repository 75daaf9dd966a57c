-- ===== src/Gfw/Blocking/Recovery.antt =====
-- internal/gfw/blocking_alert.go: verdicts that do not fire an alert.
use domain_lifecycle_deploym.Base.{
  ℕ, ◌<◌, ◌≤◌, String, str_eq, eq_iff, false, ◌||◌, Option, none, ◌≡◌, ◌≢◌, refl, arith,
}
use domain_lifecycle_deploym.Base.Exec.{Session}
use domain_lifecycle_deploym.Base.Runs.{Ran, Runs, Runs-bind, Runs-ignore, Runs-writes, Runs-then}
use domain_lifecycle_deploym.Base.Zoom.{Runs-zoom}
use domain_lifecycle_deploym.Alerts.Store.{resolve_by_dedup_key}
use domain_lifecycle_deploym.Alerts.Tables.{call_failed as alert_call_failed}
use domain_lifecycle_deploym.Alerts.Engine.{resolve}
use domain_lifecycle_deploym.Alerts.Recovery.{resolved_at}
use domain_lifecycle_deploym.Gfw.Analyzer.{Verdict}
use domain_lifecycle_deploym.Gfw.Tables.{
  GfwTables, call_failed, alert_failed, update_domain_blocking_status, blocking_updated,
}
use domain_lifecycle_deploym.Gfw.Blocking.{
  BlockingAlertDetail, classify_blocking, blocking_key, evaluate_at, evaluate_and_alert,
}

-- Below 0.70 no status is kept.
pub low_status :
    (confidence : ℕ) (type : String) → confidence < 70 → (classify_blocking confidence type).0 ≡ ""
unfolding classify_blocking
low_status confidence type h = ground (arith, h)

-- The row of the domain has no status, its type stays, and the alerts of the domain are resolved.
abbrev pub recovered : {R : Type 0} → Verdict → GfwTables R → GfwTables R
recovered v t =
    let t' = blocking_updated v.domain_id "" v.blocking none v.confidence t in
    record t' { alerts = resolved_at (blocking_key v.domain_id) t'.alerts }

module _ {R : Type 0} (marshal : BlockingAlertDetail → Option String) (v : Verdict) where
  evaluate_at-Runs :
      (severity : String) (s : GfwTables R)
      → Runs (evaluate_at marshal v "" severity) s tt (recovered v s)
  unfolding evaluate_at update_domain_blocking_status resolve resolve_by_dedup_key
  evaluate_at-Runs severity s =
      let t = blocking_updated v.domain_id "" v.blocking none v.confidence s in
      Runs-bind _ _ s t (recovered v s) tt tt (Runs-ignore _ s tt t (Runs-writes call_failed _ s)) (
        Runs-then (v.accessible || str_eq "" "") _ _ t tt _ (ground arith) (
          Runs-ignore _ t tt _ (
            Runs-zoom _ _ alert_failed _ t tt _
              (Runs-writes alert_call_failed (resolved_at (blocking_key v.domain_id)) t.alerts))))

  pub evaluate_quiet-Runs :
      (s : GfwTables R)
      → v.confidence < 70
      → Runs (evaluate_and_alert marshal v) s tt (recovered v s)
  unfolding evaluate_and_alert
  evaluate_quiet-Runs s h =
      rw (low_status v.confidence v.blocking h)
        (evaluate_at-Runs (classify_blocking v.confidence v.blocking).1 s)

  -- A verdict that names a blocking with a confidence from 0.30 to 0.69 has the severity P3, and yet
  -- no alert is fired for it: when no call fails, it clears the domain's status, keeps the type of the
  -- blocking there, and resolves the alerts of the domain.
  pub evaluate_and_alert-Ignores_p3 :
      (d : Session (GfwTables R))
      → v.blocking ≢ ""
      → 30 ≤ v.confidence
      → v.confidence < 70
      → ((n : ℕ) → d.faults n ≡ false)
      → ((classify_blocking v.confidence v.blocking).1 ≡ "P3")
        × Ran (evaluate_and_alert marshal v d) tt (recovered v d.tables)
  unfolding classify_blocking
  evaluate_and_alert-Ignores_p3 d b h k q =
      (ground (arith, eq_iff v.blocking ""), (evaluate_quiet-Runs d.tables k).at d refl q)
