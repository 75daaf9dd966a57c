-- ===== src/Gfw/Analyzer/Layers.antt =====
-- internal/gfw/analyzer.go: the checks of the four layers. A check returns what Classify reads and the
-- detail that it stores.
use domain_lifecycle_deploym.Base.{
  ℕ, ◌*◌, String, str_eq, Bool, true, false, not, ◌&&◌, ◌||◌, Option, none, some, List, [], ◌∷◌,
  ◌++◌, ◌==◌, ltb, leb, if◌then◌else◌, any,
}
use domain_lifecycle_deploym.Base.Texts.{codes, to_lower, contains_text}
use domain_lifecycle_deploym.Gfw.Measurements.{DnsResult, Attempt, HttpResult, Measurement}

abbrev pub is_empty : List String → Bool
is_empty [] = true
is_empty (s ∷ ss) = false

abbrev pub contains_ip : List String → String → Bool
contains_ip ips ip = any (str_eq ip) ips

unfoldable pub ip_set_overlap : List String → List String → Bool
unfolding any
ip_set_overlap probe control = any (contains_ip control) probe

abbrev pub every : (String → Bool) → List String → Bool
every p [] = true
every p (s ∷ ss) = p s && every p ss

abbrev owner_of_all : (String → String) → List String → List String → String → String
owner_of_all lookup probe control cdn =
    if str_eq cdn ""
    then ""
    else if every (λ ip. str_eq (lookup ip) cdn) (probe ++ control)
    then cdn
    else ""

abbrev pub cdn_match_known : (String → String) → List String → List String → String
cdn_match_known lookup probe [] = ""
cdn_match_known lookup probe (ip ∷ ips) =
    if is_empty probe then "" else owner_of_all lookup probe (ip ∷ ips) (lookup ip)

unfoldable pub cdn_match_all : Option (String → String) → List String → List String → String
cdn_match_all none probe control = ""
cdn_match_all (some lookup) probe control = cdn_match_known lookup probe control

pub record DnsCheckDetail : Type 0 where
  pub probe_answers : List String
  pub control_answers : List String
  pub probe_is_bogon : Bool
  pub probe_is_injected : Bool
  pub cdn_owner : String

abbrev pub no_dns_detail : DnsCheckDetail
no_dns_detail = record {
  probe_answers = [];
  control_answers = [];
  probe_is_bogon = false;
  probe_is_injected = false;
  cdn_owner = "";
}

-- `control != nil` and its layer is not nil.
abbrev pub control_dns : Option Measurement → Option DnsResult
control_dns none = none
control_dns (some m) = m.dns

abbrev pub control_http : Option Measurement → Option HttpResult
control_http none = none
control_http (some m) = m.http

abbrev pub answers_of : Option DnsResult → List String
answers_of none = []
answers_of (some d) = d.answers

abbrev pub error_of : Option DnsResult → String
error_of none = ""
error_of (some d) = d.error

abbrev pub dns_detail : DnsResult → Option DnsResult → DnsCheckDetail
dns_detail p c = record {
  probe_answers = p.answers;
  control_answers = answers_of c;
  probe_is_bogon = p.is_bogon;
  probe_is_injected = p.is_injected;
  cdn_owner = "";
}

-- The third heuristic, at answers of the control that are not empty.
abbrev pub compare_answers :
    Option (String → String) → List String → List String → DnsCheckDetail → String × DnsCheckDetail
compare_answers asn probe control detail =
    if ip_set_overlap probe control
    then ("consistent", detail)
    else if str_eq (cdn_match_all asn probe control) ""
    then ("inconsistent", detail)
    else ("consistent", record detail { cdn_owner = cdn_match_all asn probe control })

abbrev pub check_dns_result :
    Option (String → String) → Option DnsResult → Option DnsResult → String × DnsCheckDetail
check_dns_result asn none c = ("", no_dns_detail)
check_dns_result asn (some p) c =
    let detail = dns_detail p c in
    if p.is_bogon || p.is_injected
    then ("inconsistent", detail)
    else if not (str_eq p.error "") && str_eq (error_of c) ""
    then ("inconsistent", detail)
    else if is_empty (answers_of c)
    then ("consistent", detail)
    else compare_answers asn p.answers (answers_of c) detail

unfoldable pub check_dns :
    Option (String → String) → Measurement → Option Measurement → String × DnsCheckDetail
unfolding ip_set_overlap cdn_match_all
check_dns asn probe control = check_dns_result asn probe.dns (control_dns control)

-- The loop over the probe's attempts: whether each failed, and the first error that has a text.
abbrev pub all_failed : List Attempt → Bool
all_failed [] = true
all_failed (a ∷ as') = not a.success && all_failed as'

unfoldable pub first_error : String → List Attempt → String
first_error e [] = e
first_error e (a ∷ as') = first_error (if not a.success && str_eq e "" then a.error else e) as'

abbrev pub no_attempts : List Attempt → Bool
no_attempts [] = true
no_attempts (a ∷ as') = false

abbrev pub control_tcp : Option Measurement → List Attempt
control_tcp none = []
control_tcp (some m) = m.tcp

abbrev pub control_tls : Option Measurement → List Attempt
control_tls none = []
control_tls (some m) = m.tls

-- The results are: every attempt of the probe failed; one of the control succeeded; the error.
unfoldable pub check_tcp : Measurement → Option Measurement → Bool × Bool × String
unfolding first_error any
check_tcp probe control = if no_attempts probe.tcp then (false, false, "") else (
  all_failed probe.tcp,
  any (λ a. a.success) (control_tcp control),
  first_error "" probe.tcp,
)

unfoldable pub is_tls_sni_error : String → Bool
unfolding contains_text any
is_tls_sni_error e =
    any (λ sub. contains_text (to_lower e) (codes sub))
      ("connection_reset" ∷ "tls_handshake_failure" ∷ "alert" ∷ "handshake" ∷ [])

unfoldable pub check_tls : Measurement → Option Measurement → Bool × Bool × String
unfolding first_error is_tls_sni_error any
check_tls probe control = if no_attempts probe.tls then (false, false, "") else (
  all_failed probe.tls && is_tls_sni_error (first_error "" probe.tls),
  any (λ a. a.success) (control_tls control),
  first_error "" probe.tls,
)

pub record HttpCheckDetail : Type 0 where
  pub probe_http_status : ℕ
  pub control_http_status : ℕ
  pub probe_http_title : String
  pub control_http_title : String
  pub http_error : String

abbrev pub no_http_detail : HttpCheckDetail
no_http_detail = record {
  probe_http_status = 0;
  control_http_status = 0;
  probe_http_title = "";
  control_http_title = "";
  http_error = "";
}

unfoldable pub is_http_block_status : ℕ → Bool
is_http_block_status code = code == 0 || code == 451

-- The ratio of the lengths is below 0.3 or above 3.0.
abbrev pub length_differs : ℕ → ℕ → Bool
length_differs probe control =
    ltb 0 control && ltb 0 probe && (ltb (10 * probe) (3 * control) || ltb (3 * control) probe)

unfoldable pub is_http_diff : HttpResult → HttpResult → Bool
is_http_diff p c =
    (not (p.status_code == c.status_code) && leb 200 c.status_code && leb 200 p.status_code)
    || (not (str_eq p.title c.title) && not (str_eq c.title "") && not (str_eq p.title ""))
    || length_differs p.body_length c.body_length

abbrev pub http_detail : HttpResult → Option HttpResult → HttpCheckDetail
http_detail p none = record no_http_detail {
  probe_http_status = p.status_code;
  probe_http_title = p.title;
  http_error = p.error;
}
http_detail p (some c) = record {
  probe_http_status = p.status_code;
  control_http_status = c.status_code;
  probe_http_title = p.title;
  control_http_title = c.title;
  http_error = p.error;
}

abbrev pub differs_from : HttpResult → Option HttpResult → Bool
differs_from p none = false
differs_from p (some c) = str_eq c.error "" && is_http_diff p c

abbrev pub check_http_result :
    Option HttpResult → Option HttpResult → Bool × String × HttpCheckDetail
check_http_result none c = (true, "", no_http_detail)
check_http_result (some p) c =
    let detail = http_detail p c in
    if not (str_eq p.error "")
    then (false, "http-failure", detail)
    else if is_http_block_status p.status_code
    then (false, "http-failure", detail)
    else if differs_from p c
    then (false, "http-diff", detail)
    else (true, "", detail)

unfoldable pub check_http : Measurement → Option Measurement → Bool × String × HttpCheckDetail
unfolding is_http_block_status is_http_diff
check_http probe control = check_http_result probe.http (control_http control)

unfoldable pub coalesce : String → String → String
coalesce a b = if str_eq a "" then b else a
