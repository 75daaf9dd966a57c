-- ===== src/Gfw/Verdicts/Failures.antt =====
-- internal/gfw/verdict_service.go: a verdict whose confidence is unknown.
use domain_lifecycle_deploym.Base.{
  ℕ, ◌≤◌, String, str_eq, true, false, Option, some, ◌≡◌, refl, arith, any, none, sym, subst, ap,
}
use domain_lifecycle_deploym.Base.Exec.{
  Session, Exec, err, handle, branch, counted, query, reads, ◌>>=◌,
}
use domain_lifecycle_deploym.Base.Zoom.{zoom}
use domain_lifecycle_deploym.Gfw.Confidence.Trackers.{
  Json, Redis, redis_get, decoded, load, record_observation, unmarshal_failed,
}
use domain_lifecycle_deploym.Base.Runs.{
  Ran, Runs, Runs-bind, Runs-handle, Runs-query, Runs-ignore, Runs-pure,
}
use domain_lifecycle_deploym.Gfw.Measurements.{Measurement}
use domain_lifecycle_deploym.Gfw.Analyzer.{Verdict, classify, verdict_consistencies}
use domain_lifecycle_deploym.Gfw.Analyzer.Decisions.{
  IsCoherent, classify-IsCoherent, classify-confidence,
}
use domain_lifecycle_deploym.Gfw.Tables.{
  GfwTables, tracker_failed, call_failed, null_if_empty, consistency_allowed, verdict_allowed,
  verdict_added, insert_verdict,
}
use domain_lifecycle_deploym.Gfw.Blocking.{BlockingAlertDetail}
use domain_lifecycle_deploym.Gfw.Blocking.Recovery.{recovered, evaluate_quiet-Runs}
use domain_lifecycle_deploym.Gfw.Verdicts.{
  Columns, ConfidenceTracker, redis_tracker, stored, verdict_row, conclude, judge,
}

listed-allowed :
    (s : String)
    → any (str_eq s) verdict_consistencies ≡ true
    → consistency_allowed (null_if_empty s) ≡ true
unfolding any
listed-allowed s h = ground (arith, h)

-- The table accepts a coherent verdict.
verdict_row-allowed :
    (v : Verdict) → v.confidence ≤ 100 → IsCoherent v → verdict_allowed (verdict_row v) ≡ true
unfolding verdict_allowed verdict_row
verdict_row-allowed v h c =
    ground (arith, c.blocking_listed, listed-allowed v.dns_consistency c.consistency_listed)

module _ {R : Type 0} (asn : Option (String → String)) (c : Columns)
    (marshal : BlockingAlertDetail → Option String) (tracker : ConfidenceTracker R) where
  conclude_zero-Runs :
      (probe : Measurement) (control : Option Measurement) (s : GfwTables R)
      → Runs
          (conclude asn c marshal tracker probe control 0)
          s
          (stored (classify asn probe control 0))
          (recovered
            (classify asn probe control 0)
            (verdict_added (verdict_row (classify asn probe control 0)) s))
  unfolding conclude insert_verdict
  conclude_zero-Runs probe control s =
      let v = classify asn probe control 0 in
      let k = classify-confidence asn probe control 0 in
      let t = verdict_added (verdict_row v) s in
      let allowed =
        verdict_row-allowed v (ground (arith, k)) (classify-IsCoherent asn probe control 0) in
      Runs-handle _ _ _ s t (recovered v t) tt (stored v)
        (Runs-query call_failed _ s tt t (rw allowed refl))
        (Runs-bind _ _ t (recovered v t) (recovered v t) tt (stored v)
          (Runs-ignore _ t tt _ (evaluate_quiet-Runs marshal v t (ground (arith, k))))
          (Runs-pure (stored v) _))

module _ {E S A B : Type 0} where
  handle_failed :
      (m : Exec E S A) (failed : E → Exec E S B) (done : A → Exec E S B) (d : Session S) (x : E)
      (b : B) (t : S)
      → (m d).0 ≡ err x
      → Ran (failed x (m d).1) b t
      → Ran (handle m failed done d) b t
  unfolding handle
  handle_failed m failed done d x b t h r =
      subst (λ z. Ran (branch z failed done (m d).1) b t) (sym h) r

module _ {Bytes : Type 0} (json : Json Bytes) (id : ℕ) (node blocking : String) (b : Bytes)
    (d : Session (GfwTables (Redis Bytes))) where
  undecodable :
      redis_get id d.tables.tracked ≡ some b
      → json.unmarshal b ≡ none
      → d.faults d.calls ≡ false
      → ((redis_tracker json).record_blocking id node blocking d)
        ≡ (err (tracker_failed unmarshal_failed), counted d)
  unfolding zoom record_observation load reads query ◌>>=◌
  undecodable h k q =
      let e : decoded json (some b) ≡ err unmarshal_failed = rw (decoded, k) refl in
      rw (q, h, e) refl

module _ {Bytes : Type 0} (asn : Option (String → String)) (c : Columns)
    (marshal : BlockingAlertDetail → Option String) (json : Json Bytes) where
  -- When Redis holds bytes for the domain that decode to no state, and no call fails, the verdict is
  -- stored with a confidence of 0, and the domain's status is cleared and its alerts are resolved, even
  -- where the verdict names a blocking.
  pub judge-Forgets :
      (id : ℕ) (probe : Measurement) (control : Option Measurement) (b : Bytes)
      (d : Session (GfwTables (Redis Bytes)))
      → redis_get id d.tables.tracked ≡ some b
      → json.unmarshal b ≡ none
      → ((n : ℕ) → d.faults n ≡ false)
      → Ran
          (judge asn c marshal (redis_tracker json) id probe control d)
          (stored (classify asn probe control 0))
          (recovered
            (classify asn probe control 0)
            (verdict_added (verdict_row (classify asn probe control 0)) d.tables))
  unfolding judge
  judge-Forgets id probe control b d h k q =
      let e =
        undecodable json id probe.node_id (classify asn probe control 0).blocking b d h k
          (q d.calls) in
      let v = classify asn probe control 0 in
      let after = conclude_zero-Runs asn c marshal (redis_tracker json) probe control d.tables in
      handle_failed _ _ _ d (tracker_failed unmarshal_failed) _ _ (ap (λ o. o.0) e) (
        subst
          (λ z.
            Ran (conclude asn c marshal (redis_tracker json) probe control 0 z) (stored v)
              (recovered v (verdict_added (verdict_row v) d.tables)))
          (sym (ap (λ o. o.1) e)) (after.at (counted d) refl q))
