-- ===== src/Gfw/Analyzer/Decisions.antt =====
-- internal/gfw/analyzer.go: which verdicts Classify can give.
use domain_lifecycle_deploym.Base.{
  ℕ, String, str_eq, Bool, true, false, not, ◌&&◌, ◌||◌, Option, none, some, List, ◌≡◌, refl, arith,
  any, if_holds, sym, ◌∙◌,
}
use domain_lifecycle_deploym.Gfw.Measurements.{DnsResult, Measurement, HttpResult}
use domain_lifecycle_deploym.Gfw.Analyzer.{
  Verdict, classify, verdict_blockings, verdict_consistencies,
}
use domain_lifecycle_deploym.Gfw.Analyzer.Layers.{
  check_dns, check_tcp, check_tls, check_http, check_dns_result, check_http_result, DnsCheckDetail,
  HttpCheckDetail, compare_answers, coalesce, control_http, control_dns, ip_set_overlap,
  cdn_match_all, is_http_block_status, error_of, answers_of, is_empty, dns_detail, http_detail,
  no_http_detail, differs_from,
}

record IsHttpAnswer (r : Bool × String × HttpCheckDetail) : Type 0 where
  agrees : str_eq r.1 "" ≡ r.0
  not_dns : str_eq r.1 "dns" ≡ false
  listed : any (str_eq r.1) verdict_blockings ≡ true

no_blocking : (d : HttpCheckDetail) → IsHttpAnswer (true, "", d)
unfolding any
no_blocking d = record { agrees = refl; not_dns = refl; listed = refl }

http_failure : (d : HttpCheckDetail) → IsHttpAnswer (false, "http-failure", d)
unfolding any
http_failure d = record { agrees = refl; not_dns = refl; listed = refl }

http_diff : (d : HttpCheckDetail) → IsHttpAnswer (false, "http-diff", d)
unfolding any
http_diff d = record { agrees = refl; not_dns = refl; listed = refl }

check_http-IsHttpAnswer : (p c : Option HttpResult) → IsHttpAnswer (check_http_result p c)
check_http-IsHttpAnswer none c = no_blocking no_http_detail
check_http-IsHttpAnswer (some p) c =
    let d = http_detail p c in
    if_holds IsHttpAnswer (not (str_eq p.error "")) _ _ (λ _. http_failure d)
      (λ _.
        if_holds IsHttpAnswer (is_http_block_status p.status_code) _ _ (λ _. http_failure d)
          (λ _.
            if_holds IsHttpAnswer (differs_from p c) _ _ (λ _. http_diff d) (λ _. no_blocking d)))

record IsDnsAnswer (r : String × DnsCheckDetail) : Type 0 where
  listed : any (str_eq r.0) verdict_consistencies ≡ true
  completed : any (str_eq (coalesce r.0 "consistent")) verdict_consistencies ≡ true
  settled : str_eq (coalesce r.0 "consistent") "inconsistent" ≡ str_eq r.0 "inconsistent"

compare_answers-IsDnsAnswer :
    (asn : Option (String → String)) (probe control : List String) (detail : DnsCheckDetail)
    → IsDnsAnswer (compare_answers asn probe control detail)
unfolding any coalesce
compare_answers-IsDnsAnswer asn probe control detail =
    if_holds IsDnsAnswer (ip_set_overlap probe control) _ _
      (λ _. record { listed = refl; completed = refl; settled = refl })
      (λ _.
        if_holds IsDnsAnswer (str_eq (cdn_match_all asn probe control) "") _ _
          (λ _. record { listed = refl; completed = refl; settled = refl })
          (λ _. record { listed = refl; completed = refl; settled = refl }))

check_dns-IsDnsAnswer :
    (asn : Option (String → String)) (p c : Option DnsResult)
    → IsDnsAnswer (check_dns_result asn p c)
unfolding any coalesce
check_dns-IsDnsAnswer asn none c = record { listed = refl; completed = refl; settled = refl }
check_dns-IsDnsAnswer asn (some p) c =
    if_holds IsDnsAnswer (p.is_bogon || p.is_injected) _ _
      (λ _. record { listed = refl; completed = refl; settled = refl })
      (λ _.
        if_holds IsDnsAnswer (not (str_eq p.error "") && str_eq (error_of c) "") _ _
          (λ _. record { listed = refl; completed = refl; settled = refl })
          (λ _.
            if_holds IsDnsAnswer (is_empty (answers_of c)) _ _
              (λ _. record { listed = refl; completed = refl; settled = refl })
              (λ _. compare_answers-IsDnsAnswer asn p.answers (answers_of c) (dns_detail p c))))

not-true : (b : Bool) → not b ≡ true → b ≡ false
not-true true h = absurd (ground arith)
not-true false h = refl

-- The verdict contradicts neither itself nor the checks of the table.
pub record IsCoherent (v : Verdict) : Type 0 where
  pub accessible_agrees : v.accessible ≡ str_eq v.blocking ""
  pub dns_agrees : str_eq v.blocking "dns" ≡ str_eq v.dns_consistency "inconsistent"
  pub blocking_listed : any (str_eq v.blocking) verdict_blockings ≡ true
  pub consistency_listed : any (str_eq v.dns_consistency) verdict_consistencies ≡ true

-- Every verdict is coherent: it says that the domain is accessible exactly when it names no blocking,
-- it names DNS blocking exactly when it calls the answers inconsistent, and its two columns pass the
-- checks of the table gfw_verdicts.
pub classify-IsCoherent :
    (asn : Option (String → String)) (probe : Measurement) (control : Option Measurement)
    (confidence : ℕ)
    → IsCoherent (classify asn probe control confidence)
unfolding classify check_http check_dns any
classify-IsCoherent asn probe control confidence =
    let d = check_dns-IsDnsAnswer asn probe.dns (control_dns control) in
    let h = check_http-IsHttpAnswer probe.http (control_http control) in
    if_holds IsCoherent (str_eq (check_dns asn probe control).0 "inconsistent") _ _
      (λ k. record {
        accessible_agrees = refl;
        dns_agrees = sym k;
        blocking_listed = refl;
        consistency_listed = d.listed;
      })
      (λ k.
        if_holds IsCoherent ((check_tcp probe control).0 && (check_tcp probe control).1) _ _
          (λ _. record {
            accessible_agrees = refl;
            dns_agrees = sym k;
            blocking_listed = refl;
            consistency_listed = d.listed;
          })
          (λ _.
            if_holds IsCoherent ((check_tls probe control).0 && (check_tls probe control).1) _ _
              (λ _. record {
                accessible_agrees = refl;
                dns_agrees = sym k;
                blocking_listed = refl;
                consistency_listed = d.listed;
              })
              (λ _.
                if_holds IsCoherent (not (check_http probe control).0) _ _
                  (λ f. record {
                    accessible_agrees = sym (h.agrees ∙ not-true _ f);
                    dns_agrees = h.not_dns ∙ sym k;
                    blocking_listed = h.listed;
                    consistency_listed = d.listed;
                  })
                  (λ _. record {
                    accessible_agrees = refl;
                    dns_agrees = sym (d.settled ∙ k);
                    blocking_listed = refl;
                    consistency_listed = d.completed;
                  }))))

record HasConfidence (confidence : ℕ) (v : Verdict) : Type 0 where
  kept : v.confidence ≡ confidence

-- The confidence is passed through on every branch.
pub classify-confidence :
    (asn : Option (String → String)) (probe : Measurement) (control : Option Measurement)
    (confidence : ℕ)
    → (classify asn probe control confidence).confidence ≡ confidence
unfolding classify
classify-confidence asn probe control confidence =
    let P = HasConfidence confidence in
    let verdict =
      if_holds P (str_eq (check_dns asn probe control).0 "inconsistent") _ _
        (λ _. record { kept = refl })
        (λ _.
          if_holds P ((check_tcp probe control).0 && (check_tcp probe control).1) _ _
            (λ _. record { kept = refl })
            (λ _.
              if_holds P ((check_tls probe control).0 && (check_tls probe control).1) _ _
                (λ _. record { kept = refl })
                (λ _.
                  if_holds P (not (check_http probe control).0) _ _ (λ _. record { kept = refl })
                    (λ _. record { kept = refl })))) in
    verdict.kept
