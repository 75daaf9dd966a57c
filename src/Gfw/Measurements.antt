-- ===== src/Gfw/Measurements.antt =====
-- pkg/probeprotocol: what a probe node measures of a domain. The fields that the analyzer does not
-- read are left out; a TCP result and a TLS result have the same two fields left, and one type.
use domain_lifecycle_deploym.Base.{ℕ, String, Bool, Option, List}

pub record DnsResult : Type 0 where
  pub answers : List String
  pub error : String
  pub is_bogon : Bool
  pub is_injected : Bool

pub record Attempt : Type 0 where
  pub success : Bool
  pub error : String

pub record HttpResult : Type 0 where
  pub status_code : ℕ
  pub body_length : ℕ
  pub title : String
  pub error : String

pub record Measurement : Type 0 where
  pub domain_id : ℕ
  pub fqdn : String
  pub node_id : String
  pub dns : Option DnsResult
  pub tcp : List Attempt
  pub tls : List Attempt
  pub http : Option HttpResult
  pub measured_at : ℕ
