-- ===== src/Gfw/Verdicts.antt =====
-- internal/gfw/verdict_service.go: from the newest measurements of a domain to a stored verdict. The
-- tracker is an interface; Redis implements it. The decoders of the JSON columns are parameters. The
-- alert service, which may be absent in the source, is there.
pub mod Outcomes
pub mod Failures
use domain_lifecycle_deploym.Base.{
  ℕ, String, str_eq, Bool, true, false, ◌||◌, Option, none, some, List, [], ◌∷◌, if◌then◌else◌,
}
use domain_lifecycle_deploym.Base.Exec.{
  Res, ok, err, Exec, pure, throw, ignore, handle, on_option, ◌>>=◌, ◌>>◌,
}
use domain_lifecycle_deploym.Base.Zoom.{zoom}
use domain_lifecycle_deploym.Gfw.Measurements.{DnsResult, Attempt, HttpResult, Measurement}
use domain_lifecycle_deploym.Gfw.Analyzer.{Verdict, classify}
use domain_lifecycle_deploym.Gfw.Confidence.Trackers.{Json, Redis, record_observation}
use domain_lifecycle_deploym.Gfw.Tables.{
  MeasurementRow, GfwVerdict, GfwTables, GfwError, decode_failed, tracker_failed, null_if_empty,
  insert_verdict, latest_measurement_pair,
}
use domain_lifecycle_deploym.Gfw.Blocking.{BlockingAlertDetail, evaluate_and_alert}

-- The columns of a measurement, decoded.
pub record Columns : Type 0 where
  pub decode_dns : String → Option DnsResult
  pub decode_tcp : String → Option (List Attempt)
  pub decode_tls : String → Option (List Attempt)
  pub decode_http : String → Option HttpResult

abbrev pub no_column : String → Bool
no_column s = str_eq s "" || str_eq s "null"

-- A column that is absent is the zero value; one that cannot be decoded is an error.
abbrev pub column : {A : Type 0} → A → (String → Option A) → String → Option A
column zero_value decode s = if no_column s then some zero_value else decode s

abbrev pub nullable_column : {A : Type 0} → (String → Option A) → String → Option (Option A)
nullable_column decode s =
    if no_column s then some none else elim (decode s) [ none ↦ none | some a ↦ some (some a) ]

abbrev then_decode : {A B : Type 0} → Option A → (A → Option B) → Option B
then_decode none f = none
then_decode (some a) f = f a

unfoldable pub row_to_measurement : Columns → MeasurementRow → Option Measurement
row_to_measurement c row = then_decode (nullable_column c.decode_dns row.dns_result) λ dns.
    then_decode (column [] c.decode_tcp row.tcp_results) λ tcp.
      then_decode (column [] c.decode_tls row.tls_results) λ tls.
        then_decode (nullable_column c.decode_http row.http_result) λ http. some (record {
          domain_id = row.domain_id;
          fqdn = row.fqdn;
          node_id = row.node_id;
          dns = dns;
          tcp = tcp;
          tls = tls;
          http = http;
          measured_at = row.measured_at;
        })

unfoldable pub verdict_row : Verdict → GfwVerdict
verdict_row v = record {
  domain_id = v.domain_id;
  blocking = v.blocking;
  accessible = v.accessible;
  dns_consistency = null_if_empty v.dns_consistency;
  confidence = v.confidence;
  probe_node_id = v.probe_node_id;
  control_node_id = v.control_node_id;
  detail = v.detail;
  measured_at = v.measured_at;
}

-- What AnalyzeAndStore returns: nothing to judge, a stored verdict, or a verdict together with the
-- error of storing it. Any other error comes with no verdict and is one of the action.
pub data Analysis : Type 0 where
  no_data : Analysis
  stored : Verdict → Analysis
  unstored : Verdict → GfwError → Analysis

-- What the service uses of the interface.
pub record ConfidenceTracker (R : Type 0) : Type 0 where
  pub record_blocking : ℕ → String → String → Exec GfwError (GfwTables R) ℕ

abbrev pub redis_tracker : {Bytes : Type 0} → Json Bytes → ConfidenceTracker (Redis Bytes)
redis_tracker json = record {
  record_blocking = λ id node blocking.
      zoom (λ t. t.tracked) (λ r t. record t { tracked = r }) tracker_failed
        (record_observation json id node blocking);
}

module _ {R : Type 0} (asn : Option (String → String)) (c : Columns)
    (marshal : BlockingAlertDetail → Option String) (tracker : ConfidenceTracker R) where
  -- The end of AnalyzeAndStore, once the confidence is known.
  unfoldable pub conclude :
      Measurement → Option Measurement → ℕ → Exec GfwError (GfwTables R) Analysis
  conclude probe control confidence =
      let verdict = classify asn probe control confidence in
      handle (insert_verdict (verdict_row verdict)) (λ e. pure (unstored verdict e))
        (λ _. do ignore (evaluate_and_alert marshal verdict); pure (stored verdict))

  -- A failure of the tracker is logged and leaves a confidence of 0.
  unfoldable pub judge : ℕ → Measurement → Option Measurement → Exec GfwError (GfwTables R) Analysis
  judge id probe control =
      handle (tracker.record_blocking id probe.node_id (classify asn probe control 0).blocking)
        (λ _. conclude probe control 0) (λ confidence. conclude probe control confidence)

  -- A control measurement that cannot be decoded is left out.
  abbrev pub control_of : Option MeasurementRow → Option Measurement
  control_of none = none
  control_of (some row) = row_to_measurement c row

  unfoldable pub analyze_and_store : ℕ → Exec GfwError (GfwTables R) Analysis
  analyze_and_store id = do
    pair ← latest_measurement_pair id
    on_option pair.0 (pure no_data) (λ row.
        on_option (row_to_measurement c row) (throw decode_failed)
          (λ probe. judge id probe (control_of pair.1)))
