-- ===== src/Gfw/Blocking.antt =====
-- internal/gfw/blocking_alert.go: what a verdict does to the domain's row and to its alerts. A
-- confidence is in hundredths, so it is also the percentage of the title.
pub mod Recovery
use Prim.Native.String.{◌++◌ as join}
use domain_lifecycle_deploym.Base.{
  ℕ, String, str_eq, Bool, true, false, not, ◌&&◌, ◌||◌, Option, none, some, leb, if◌then◌else◌,
}
use domain_lifecycle_deploym.Base.Texts.{decimal}
use domain_lifecycle_deploym.Base.Exec.{Exec, pure, throw, ignore, on_option, ◌>>=◌, ◌>>◌}
use domain_lifecycle_deploym.Base.Zoom.{zoom}
use domain_lifecycle_deploym.Alerts.Tables.{AlertEvent, AlertDb}
use domain_lifecycle_deploym.Alerts.Engine.{fire, resolve}
use domain_lifecycle_deploym.Gfw.Analyzer.{Verdict}
use domain_lifecycle_deploym.Gfw.Tables.{
  GfwTables, GfwError, marshal_failed, alert_failed, update_domain_blocking_status,
}

pub record BlockingAlertDetail : Type 0 where
  pub fqdn : String
  pub blocking_type : String
  pub confidence : ℕ
  pub probe_node_id : String
  pub control_node_id : String

-- The status of the domain and the severity of the alert.
unfoldable pub classify_blocking : ℕ → String → String × String
classify_blocking confidence type =
    if str_eq type ""
    then ("", "")
    else if leb 90 confidence
    then ("blocked", "P1")
    else if leb 70 confidence
    then ("possibly_blocked", "P2")
    else if leb 30 confidence
    then ("", "P3")
    else ("", "")

abbrev title_start : String → String
title_start type =
    if str_eq type "dns"
    then "GFW: DNS blocking detected on "
    else if str_eq type "tcp_ip"
    then "GFW: TCP/IP blocking detected on "
    else if str_eq type "tls_sni"
    then "GFW: TLS SNI blocking detected on "
    else if str_eq type "http-failure"
    then "GFW: HTTP failure detected on "
    else if str_eq type "http-diff"
    then "GFW: HTTP content difference detected on "
    else "GFW: blocking detected on "

unfoldable pub build_title : String → String → ℕ → String
unfolding decimal
build_title fqdn type confidence =
    join (title_start type) (join fqdn (join " (" (join (decimal confidence) "% confidence)")))

unfoldable pub blocking_key : ℕ → String
unfolding decimal
blocking_key domain = join "gfw:blocked:" (decimal domain)

abbrev pub alert_detail : Verdict → BlockingAlertDetail
alert_detail v = record {
  fqdn = v.fqdn;
  blocking_type = v.blocking;
  confidence = v.confidence;
  probe_node_id = v.probe_node_id;
  control_node_id = v.control_node_id;
}

-- Fields that the INSERT sets have their zero values.
abbrev pub blocking_event : Verdict → String → String → AlertEvent
blocking_event v severity detail = record {
  id = 0;
  severity = severity;
  source = "gfw";
  target_kind = "domain";
  target_id = some v.domain_id;
  title = build_title v.fqdn v.blocking v.confidence;
  detail = some detail;
  dedup_key = some (blocking_key v.domain_id);
  notified_at = none;
  resolved_at = none;
  acknowledged_at = none;
  acknowledged_by = none;
  created_at = 0;
}

abbrev pub since : String → ℕ → Option ℕ
since status at = if str_eq status "" then none else some at

module _ {R : Type 0} where
  abbrev pub on_alerts : {A : Type 0} → AlertDb A → Exec GfwError (GfwTables R) A
  on_alerts m = zoom (λ t. t.alerts) (λ a t. record t { alerts = a }) alert_failed m

  -- The rest of EvaluateAndAlert, at the status and the severity of the verdict.
  unfoldable pub evaluate_at :
      (BlockingAlertDetail → Option String)
      → Verdict
      → String
      → String
      → Exec GfwError (GfwTables R) Unit
  evaluate_at marshal v status severity = do
    ignore (
        update_domain_blocking_status v.domain_id status v.blocking (since status v.measured_at)
          v.confidence)
    if v.accessible || str_eq status ""
        then ignore (on_alerts (resolve (blocking_key v.domain_id)))
        else on_option (marshal (alert_detail v)) (throw marshal_failed)
            (λ detail. on_alerts (fire (blocking_event v severity detail)))

  unfoldable pub evaluate_and_alert :
      (BlockingAlertDetail → Option String) → Verdict → Exec GfwError (GfwTables R) Unit
  unfolding evaluate_at
  evaluate_and_alert marshal v =
      let class = classify_blocking v.confidence v.blocking in evaluate_at marshal v class.0 class.1
