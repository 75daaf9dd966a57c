-- ===== src/Gfw/Verdicts/Outcomes.antt =====
-- internal/gfw/verdict_service.go: what a run of AnalyzeAndStore leaves behind.
use domain_lifecycle_deploym.Base.{
  ℕ, String, str_eq, ◌||◌, Option, none, some, List, [], ◌∷◌, ◌++◌, ◌≡◌, refl, ap,
}
use domain_lifecycle_deploym.Base.Exec.{Session, pure, throw, on_option}
use domain_lifecycle_deploym.Base.Always.{
  Always, Post, Post-if, Always-pure, Always-throw, Always-query, Always-reads, Always-writes,
  Always-bind, Always-handle, Always-ignore, Always-if,
}
use domain_lifecycle_deploym.Base.Zoom.{Always-zoom}
use domain_lifecycle_deploym.Gfw.Measurements.{Measurement}
use domain_lifecycle_deploym.Gfw.Analyzer.{Verdict, classify}
use domain_lifecycle_deploym.Gfw.Analyzer.Decisions.{IsCoherent, classify-IsCoherent}
use domain_lifecycle_deploym.Gfw.Confidence.Trackers.{Json, Redis}
use domain_lifecycle_deploym.Gfw.Tables.{
  GfwVerdict, GfwTables, MeasurementRow, call_failed, decode_failed, marshal_failed,
  verdict_allowed, insert_verdict, latest_measurement_pair, update_domain_blocking_status,
}
use domain_lifecycle_deploym.Gfw.Blocking.{
  BlockingAlertDetail, evaluate_at, evaluate_and_alert, classify_blocking, alert_detail, on_alerts,
  blocking_event,
}
use domain_lifecycle_deploym.Alerts.Engine.{fire}
use domain_lifecycle_deploym.Gfw.Verdicts.{
  Analysis, no_data, stored, unstored, Columns, ConfidenceTracker, redis_tracker,
  row_to_measurement, verdict_row, conclude, judge, control_of, analyze_and_store,
}

-- What a run that returns has added to the verdicts.
abbrev pub Added : List GfwVerdict → Analysis → List GfwVerdict → Type 0
Added vs no_data ws = ws ≡ vs
Added vs (stored v) ws = IsCoherent v × (ws ≡ vs ++ verdict_row v ∷ [])
Added vs (unstored v e) ws = IsCoherent v × (ws ≡ vs)

module _ {R : Type 0} (marshal : BlockingAlertDetail → Option String) (vs : List GfwVerdict) where
  abbrev Holds : GfwTables R → Type 0
  Holds t = t.verdicts ≡ vs

  fired-Holds :
      (v : Verdict) (severity : String) (o : Option String)
      → Always {S = GfwTables R}
          (on_option o
            (throw marshal_failed)
            (λ detail. on_alerts (fire (blocking_event v severity detail))))
          Holds
          (λ _. Holds)
          Holds
  unfolding on_option
  fired-Holds v severity none = Always-throw marshal_failed (λ t h. h)
  fired-Holds v severity (some detail) = Always-zoom _ _ _ _ (λ a t h. h)

  -- The alerts are all that the evaluation changes, and the row of the domain.
  evaluate_and_alert-Holds :
      (v : Verdict) → Always (evaluate_and_alert marshal v) Holds (λ _. Holds) Holds
  unfolding evaluate_and_alert evaluate_at update_domain_blocking_status
  evaluate_and_alert-Holds v =
      let status = (classify_blocking v.confidence v.blocking).0 in
      let severity = (classify_blocking v.confidence v.blocking).1 in
      Always-bind _ _ (Always-ignore _ (Always-writes call_failed _ (λ t h. h) (λ t h. h))) (λ _.
        Always-if (v.accessible || str_eq status "") _ _
          (λ _. Always-ignore _ (Always-zoom _ _ _ _ (λ a t h. h)))
          (λ _. fired-Holds v severity (marshal (alert_detail v))))

module _ {R : Type 0} (asn : Option (String → String)) (c : Columns)
    (marshal : BlockingAlertDetail → Option String) (tracker : ConfidenceTracker R)
    (vs : List GfwVerdict) where
  insert_verdict-Adds :
      (v : GfwVerdict)
      → Always
          (insert_verdict {R = R} v)
          (Holds marshal vs)
          (λ _. Holds marshal (vs ++ v ∷ []))
          (Holds marshal vs)
  unfolding insert_verdict
  insert_verdict-Adds v =
      Always-query call_failed _ (λ t h. h)
        (λ t h.
          Post-if (λ _. Holds marshal (vs ++ v ∷ [])) (Holds marshal vs) (verdict_allowed v) _ _
            (λ _. ap (λ ws. ws ++ v ∷ []) h) (λ _. h))

  conclude-Adds :
      (probe : Measurement) (control : Option Measurement) (confidence : ℕ)
      → Always
          (conclude asn c marshal tracker probe control confidence)
          (Holds marshal vs)
          (λ r t. Added vs r t.verdicts)
          (Holds marshal vs)
  unfolding conclude
  conclude-Adds probe control confidence =
      let v = classify asn probe control confidence in
      let ws = vs ++ verdict_row v ∷ [] in
      let coherent = classify-IsCoherent asn probe control confidence in
      Always-handle _ _ _ (insert_verdict-Adds (verdict_row v))
        (λ e. Always-pure (unstored v e) (λ t h. (coherent, h)))
        (λ _.
          Always-bind _ _ (Always-ignore _ (evaluate_and_alert-Holds marshal ws v))
            (λ _. Always-pure (stored v) (λ t h. (coherent, h))))

  -- The tracker leaves the stored verdicts alone.
  abbrev KeepsVerdicts : Type 0
  KeepsVerdicts =
      (i : ℕ) (node blocking : String)
      → Always (tracker.record_blocking i node blocking) (Holds marshal vs) (λ _. Holds marshal vs)
          (Holds marshal vs)

  judge-Adds :
      (id : ℕ) (probe : Measurement) (control : Option Measurement)
      → KeepsVerdicts
      → Always
          (judge asn c marshal tracker id probe control)
          (Holds marshal vs)
          (λ r t. Added vs r t.verdicts)
          (Holds marshal vs)
  unfolding judge
  judge-Adds id probe control k =
      Always-handle _ _ _ (k id probe.node_id (classify asn probe control 0).blocking)
        (λ _. conclude-Adds probe control 0) (λ confidence. conclude-Adds probe control confidence)

  decoded-Adds :
      (id : ℕ) (o : Option Measurement) (control : Option Measurement)
      → KeepsVerdicts
      → Always
          (on_option o
            (throw decode_failed)
            (λ probe. judge asn c marshal tracker id probe control))
          (Holds marshal vs)
          (λ r t. Added vs r t.verdicts)
          (Holds marshal vs)
  unfolding on_option
  decoded-Adds id none control k = Always-throw decode_failed (λ t h. h)
  decoded-Adds id (some probe) control k = judge-Adds id probe control k

  row-Adds :
      (id : ℕ) (o : Option MeasurementRow) (control : Option Measurement)
      → KeepsVerdicts
      → Always
          (on_option o (pure no_data) (λ row.
            on_option
              (row_to_measurement c row)
              (throw decode_failed)
              (λ probe. judge asn c marshal tracker id probe control)))
          (Holds marshal vs)
          (λ r t. Added vs r t.verdicts)
          (Holds marshal vs)
  unfolding on_option
  row-Adds id none control k = Always-pure no_data (λ t h. h)
  row-Adds id (some row) control k = decoded-Adds id (row_to_measurement c row) control k

  analyze_and_store-Adds :
      (id : ℕ)
      → KeepsVerdicts
      → Always
          (analyze_and_store asn c marshal tracker id)
          (Holds marshal vs)
          (λ r t. Added vs r t.verdicts)
          (Holds marshal vs)
  unfolding analyze_and_store latest_measurement_pair
  analyze_and_store-Adds id k =
      Always-bind {R = λ _. Holds marshal vs} _ _ (Always-reads call_failed _ (λ t h. h) (λ t h. h))
        (λ pair. row-Adds id pair.0 (control_of asn c marshal tracker pair.1) k)

module _ {Bytes : Type 0} (asn : Option (String → String)) (c : Columns)
    (marshal : BlockingAlertDetail → Option String) (json : Json Bytes) where
  -- With the tracker in Redis, whatever calls fail: a verdict that comes without an error is coherent
  -- and exactly it was added to the stored ones; a verdict that comes with the error of storing it is
  -- coherent and nothing was added; a run without a verdict, with an error or not, has added nothing.
  pub analyze_and_store-Stores :
      (id : ℕ) (d : Session (GfwTables (Redis Bytes)))
      → Post
          (λ r t. Added d.tables.verdicts r t.verdicts)
          (λ t. t.verdicts ≡ d.tables.verdicts)
          (analyze_and_store asn c marshal (redis_tracker json) id d).0
          (analyze_and_store asn c marshal (redis_tracker json) id d).1.tables
  analyze_and_store-Stores id d =
      (analyze_and_store-Adds asn c marshal (redis_tracker json) d.tables.verdicts id
          (λ i node blocking. Always-zoom _ _ _ _ (λ r t h. h))).at
        d refl
