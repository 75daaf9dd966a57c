-- ===== src/Gfw/Analyzer/Uncontrolled.antt =====
-- internal/gfw/analyzer.go: a measurement without one from outside to compare it with.
use domain_lifecycle_deploym.Base.{
  ℕ, String, str_eq, Bool, true, false, not, ◌&&◌, Option, none, some, List, [], ◌∷◌, ◌≡◌, refl,
  any, if_holds,
}
use domain_lifecycle_deploym.Gfw.Measurements.{HttpResult, Measurement}
use domain_lifecycle_deploym.Gfw.Analyzer.{Verdict, classify}
use domain_lifecycle_deploym.Gfw.Analyzer.Layers.{
  HttpCheckDetail, check_dns, check_tcp, check_tls, check_http, check_http_result,
  is_http_block_status, http_detail, no_attempts,
}

abbrev pub uncontrolled_blockings : List String
uncontrolled_blockings = "" ∷ "dns" ∷ "http-failure" ∷ []

record IsUncontrolled (confidence : ℕ) (v : Verdict) : Type 0 where
  blocking_listed : any (str_eq v.blocking) uncontrolled_blockings ≡ true
  confidence_kept : v.confidence ≡ confidence

record IsUncontrolledHttp (r : Bool × String × HttpCheckDetail) : Type 0 where
  listed : any (str_eq r.1) uncontrolled_blockings ≡ true

check_http-IsUncontrolledHttp :
    (p : Option HttpResult) → IsUncontrolledHttp (check_http_result p none)
unfolding any
check_http-IsUncontrolledHttp none = record { listed = refl }
check_http-IsUncontrolledHttp (some p) =
    let d = http_detail p none in
    if_holds IsUncontrolledHttp (not (str_eq p.error "")) (false, "http-failure", d) _
      (λ _. record { listed = refl })
      (λ _.
        if_holds IsUncontrolledHttp (is_http_block_status p.status_code) (false, "http-failure", d)
          (true, "", d) (λ _. record { listed = refl }) (λ _. record { listed = refl }))

no_both : (b c : Bool) → c ≡ false → (b && c) ≡ false
no_both true c h = h
no_both false c h = refl

record NoControl (r : Bool × Bool × String) : Type 0 where
  unconfirmed : (r.0 && r.1) ≡ false

check_tcp-NoControl : (probe : Measurement) → NoControl (check_tcp probe none)
unfolding check_tcp any
check_tcp-NoControl probe =
    if_holds NoControl (no_attempts probe.tcp) _ _ (λ _. record { unconfirmed = refl })
      (λ _. record { unconfirmed = no_both _ false refl })

check_tls-NoControl : (probe : Measurement) → NoControl (check_tls probe none)
unfolding check_tls any
check_tls-NoControl probe =
    if_holds NoControl (no_attempts probe.tls) _ _ (λ _. record { unconfirmed = refl })
      (λ _. record { unconfirmed = no_both _ false refl })

-- Without a control measurement a verdict names no blocking, DNS blocking or an HTTP failure, never
-- TCP, TLS or a difference of contents; and its confidence is the one that was passed in, however
-- high.
pub classify-IsUncontrolled :
    (asn : Option (String → String)) (probe : Measurement) (confidence : ℕ)
    → (any (str_eq (classify asn probe none confidence).blocking) uncontrolled_blockings ≡ true)
      × ((classify asn probe none confidence).confidence ≡ confidence)
unfolding classify check_http any
classify-IsUncontrolled asn probe confidence =
    let tcp = (check_tcp-NoControl probe).unconfirmed in
    let tls = (check_tls-NoControl probe).unconfirmed in
    let verdict =
      if_holds (IsUncontrolled confidence) (str_eq (check_dns asn probe none).0 "inconsistent") _ _
        (λ _. record { blocking_listed = refl; confidence_kept = refl })
        (λ _.
          rw (tcp, tls)
            (if_holds (IsUncontrolled confidence) (not (check_http probe none).0) _ _
              (λ _. record {
                blocking_listed = (check_http-IsUncontrolledHttp probe.http).listed;
                confidence_kept = refl;
              })
              (λ _. record { blocking_listed = refl; confidence_kept = refl }))) in
    (verdict.blocking_listed, verdict.confidence_kept)
