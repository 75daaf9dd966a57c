-- ===== src/Expiry/Status.antt =====
-- internal/domain/expiry.go: the status of a date. Hours are divided as fractions in the source, which
-- is exact up to 90 days, and beyond that all is one band.
use domain_lifecycle_deploym.Base.{
  ℕ, ◌+◌, ◌-◌, ◌/◌, String, str_eq, Bool, true, false, Option, none, some, ltb, leb, if◌then◌else◌,
}

abbrev pub day : ℕ
day = 86400000000000

-- The ceiling of the days between, which may be negative: `ago n` is -(n + 1).
pub data Days : Type 0 where
  ahead : ℕ → Days
  ago : ℕ → Days

unfoldable pub days_until : ℕ → ℕ → Days
days_until target now =
    if leb now target
    then ahead ((target - now + (day - 1)) / day)
    else if ltb (now - target) day
    then ahead 0
    else ago ((now - target) / day - 1)

abbrev pub at_most : ℕ → Days → Bool
at_most n (ahead k) = leb k n
at_most n (ago k) = true

abbrev pub in_grace : Option ℕ → ℕ → Bool
in_grace none now = false
in_grace (some g) now = ltb now g

unfoldable pub compute_expiry_status : Option ℕ → Option ℕ → ℕ → Option String
unfolding days_until
compute_expiry_status none grace now = none
compute_expiry_status (some e) grace now =
    if leb e now
    then (if in_grace grace now then some "grace" else some "expired")
    else if at_most 7 (days_until e now)
    then some "expiring_7d"
    else if at_most 30 (days_until e now)
    then some "expiring_30d"
    else if at_most 90 (days_until e now)
    then some "expiring_90d"
    else none

unfoldable pub severity_for_status : Option String → String
severity_for_status none = ""
severity_for_status (some s) =
    if str_eq s "expiring_90d"
    then "info"
    else if str_eq s "expiring_30d"
    then "warning"
    else if str_eq s "expiring_7d"
    then "urgent"
    else if str_eq s "expired"
    then "critical"
    else if str_eq s "grace"
    then "critical"
    else "info"

unfoldable pub status_equal : Option String → Option String → Bool
status_equal none none = true
status_equal none (some b) = false
status_equal (some a) none = false
status_equal (some a) (some b) = str_eq a b
