-- ===== src/Gfw/Analyzer.antt =====
-- internal/gfw/analyzer.go: the verdict on a measurement inside the firewall, compared with one
-- outside. The look-up of the CDN that owns an address is a parameter; it may be absent.
pub mod Layers
pub mod Decisions
pub mod Uncontrolled
use domain_lifecycle_deploym.Base.{
  ℕ, String, str_eq, Bool, true, false, not, ◌&&◌, Option, none, some, List, [], ◌∷◌, if◌then◌else◌,
}
use domain_lifecycle_deploym.Gfw.Measurements.{Measurement}
use domain_lifecycle_deploym.Gfw.Analyzer.Layers.{
  DnsCheckDetail, HttpCheckDetail, check_dns, check_tcp, check_tls, check_http, coalesce,
  no_http_detail,
}

pub record VerdictDetail : Type 0 where
  pub dns : DnsCheckDetail
  pub probe_tcp_success : Bool
  pub control_tcp_success : Bool
  pub tcp_error : String
  pub probe_tls_success : Bool
  pub control_tls_success : Bool
  pub tls_error : String
  pub http : HttpCheckDetail

pub record Verdict : Type 0 where
  pub domain_id : ℕ
  pub fqdn : String
  pub blocking : String
  pub accessible : Bool
  pub dns_consistency : String
  pub confidence : ℕ
  pub probe_node_id : String
  pub control_node_id : String
  pub detail : VerdictDetail
  pub measured_at : ℕ

abbrev node_of : Option Measurement → String
node_of none = ""
node_of (some m) = m.node_id

abbrev pub verdict_on :
    Measurement → Option Measurement → ℕ → String → Bool → String → VerdictDetail → Verdict
verdict_on probe control confidence blocking accessible consistency detail = record {
  domain_id = probe.domain_id;
  fqdn = probe.fqdn;
  blocking = blocking;
  accessible = accessible;
  dns_consistency = consistency;
  confidence = confidence;
  probe_node_id = probe.node_id;
  control_node_id = node_of control;
  detail = detail;
  measured_at = probe.measured_at;
}

-- The fields of the layers that were not checked keep their zero values.
abbrev pub dns_only : DnsCheckDetail → VerdictDetail
dns_only dns = record {
  dns = dns;
  probe_tcp_success = false;
  control_tcp_success = false;
  tcp_error = "";
  probe_tls_success = false;
  control_tls_success = false;
  tls_error = "";
  http = no_http_detail;
}

abbrev pub and_tcp : Bool × Bool × String → VerdictDetail → VerdictDetail
and_tcp (failed, control_ok, error) v = record v {
  probe_tcp_success = not failed;
  control_tcp_success = control_ok;
  tcp_error = error;
}

abbrev pub and_tls : Bool × Bool × String → VerdictDetail → VerdictDetail
and_tls (failed, control_ok, error) v = record v {
  probe_tls_success = not failed;
  control_tls_success = control_ok;
  tls_error = error;
}

unfoldable pub classify : Option (String → String) → Measurement → Option Measurement → ℕ → Verdict
unfolding check_dns check_tcp check_tls check_http coalesce
classify asn probe control confidence =
    let dns = check_dns asn probe control in
    let tcp = check_tcp probe control in
    let tls = check_tls probe control in
    let http = check_http probe control in
    let detail1 = dns_only dns.1 in
    let detail2 = and_tcp tcp detail1 in
    let detail3 = and_tls tls detail2 in
    let detail4 = record detail3 { http = http.2 } in
    let verdict = verdict_on probe control confidence in
    if str_eq dns.0 "inconsistent"
    then verdict "dns" false dns.0 detail1
    else if tcp.0 && tcp.1
    then verdict "tcp_ip" false dns.0 detail2
    else if tls.0 && tls.1
    then verdict "tls_sni" false dns.0 detail3
    else if not http.0
    then verdict http.1 false dns.0 detail4
    else verdict "" true (coalesce dns.0 "consistent") detail4

-- The values that the checks of the table gfw_verdicts allow.
abbrev pub verdict_blockings : List String
verdict_blockings =
    "" ∷ "dns" ∷ "tcp_ip" ∷ "tls_sni" ∷ "http-failure" ∷ "http-diff" ∷ "indeterminate" ∷ []

abbrev pub verdict_consistencies : List String
verdict_consistencies = "" ∷ "consistent" ∷ "inconsistent" ∷ []
