-- ===== src/Gfw/Tables.antt =====
-- The rows of store/postgres/gfw_measurement.go, gfw_verdict.go and gfw_blocking.go that a verdict
-- reads and writes, beside the trackers' Redis and the alerts. The JSON columns of a measurement are
-- texts; the detail of a verdict is kept as a value.
use domain_lifecycle_deploym.Base.{
  ℕ, String, str_eq, Bool, true, ◌&&◌, Option, none, some, List, [], ◌∷◌, ◌++◌, ◌==◌, leb,
  if◌then◌else◌, any, first, select, sort_by, update_where,
}
use domain_lifecycle_deploym.Base.Exec.{ok, err, Exec, query, reads, writes}
use domain_lifecycle_deploym.Alerts.Tables.{AlertTables, AlertError}
use domain_lifecycle_deploym.Gfw.Analyzer.{VerdictDetail, verdict_blockings}
use domain_lifecycle_deploym.Gfw.Confidence.Trackers.{TrackerError}

pub record MeasurementRow : Type 0 where
  pub domain_id : ℕ
  pub node_id : String
  pub node_role : String
  pub fqdn : String
  pub dns_result : String
  pub tcp_results : String
  pub tls_results : String
  pub http_result : String
  pub measured_at : ℕ

pub record GfwVerdict : Type 0 where
  pub domain_id : ℕ
  pub blocking : String
  pub accessible : Bool
  pub dns_consistency : Option String
  pub confidence : ℕ
  pub probe_node_id : String
  pub control_node_id : String
  pub detail : VerdictDetail
  pub measured_at : ℕ

-- The columns of `domains` that say whether the domain is blocked.
pub record DomainBlockingState : Type 0 where
  pub id : ℕ
  pub blocking_status : Option String
  pub blocking_type : Option String
  pub blocking_since : Option ℕ
  pub blocking_confidence : Option ℕ

pub record GfwTables (R : Type 0) : Type 0 where
  pub tracked : R
  pub measurements : List MeasurementRow
  pub verdicts : List GfwVerdict
  pub domains : List DomainBlockingState
  pub alerts : AlertTables

pub data GfwError : Type 0 where
  call_failed marshal_failed decode_failed constraint_violated : GfwError
  alert_failed : AlertError → GfwError
  tracker_failed : TrackerError → GfwError

-- NULLIF($n, '').
abbrev pub null_if_empty : String → Option String
null_if_empty s = if str_eq s "" then none else some s

abbrev pub consistency_allowed : Option String → Bool
consistency_allowed none = true
consistency_allowed (some s) = any (str_eq s) ("consistent" ∷ "inconsistent" ∷ [])

-- The checks of the table.
unfoldable pub verdict_allowed : GfwVerdict → Bool
unfolding any
verdict_allowed v =
    any (str_eq v.blocking) verdict_blockings
    && consistency_allowed v.dns_consistency
    && leb v.confidence 100

module _ {R : Type 0} where
  abbrev pub blocking_updated : ℕ → String → String → Option ℕ → ℕ → GfwTables R → GfwTables R
  blocking_updated id status type since confidence t = record t {
    domains =
        update_where (λ d. d.id == id)
          (λ d. record d {
            blocking_status = null_if_empty status;
            blocking_type = null_if_empty type;
            blocking_since = since;
            blocking_confidence = if str_eq status "" then none else some confidence;
          })
          t.domains;
  }

  unfoldable pub update_domain_blocking_status :
      ℕ → String → String → Option ℕ → ℕ → Exec GfwError (GfwTables R) Unit
  unfolding writes
  update_domain_blocking_status id status type since confidence =
      writes call_failed (blocking_updated id status type since confidence)

  abbrev pub verdict_added : GfwVerdict → GfwTables R → GfwTables R
  verdict_added v t = record t { verdicts = t.verdicts ++ v ∷ [] }

  unfoldable pub insert_verdict : GfwVerdict → Exec GfwError (GfwTables R) Unit
  unfolding query verdict_allowed
  insert_verdict v =
      query call_failed (λ t.
        if verdict_allowed v then (ok tt, verdict_added v t) else (err constraint_violated, t))

  -- DISTINCT ON (node_role) … ORDER BY measured_at DESC: the newest row of a role.
  abbrev pub latest_of : String → ℕ → GfwTables R → Option MeasurementRow
  latest_of role id t =
      first (λ m. true)
        (sort_by (λ a b. leb b.measured_at a.measured_at)
          (select (λ m. m.domain_id == id && str_eq m.node_role role) t.measurements))

  unfoldable pub latest_measurement_pair :
      ℕ → Exec GfwError (GfwTables R) (Option MeasurementRow × Option MeasurementRow)
  unfolding reads first sort_by select
  latest_measurement_pair id =
      reads call_failed (λ t. ok (latest_of "probe" id t, latest_of "control" id t))
