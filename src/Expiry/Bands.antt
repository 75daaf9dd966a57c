-- ===== src/Expiry/Bands.antt =====
-- internal/domain/expiry.go: the bands as intervals of time.
use domain_lifecycle_deploym.Base.{
  ℕ, ◌+◌, ◌-◌, ◌/◌, ◌*◌, ◌<◌, String, false, Option, none, some, ◌≡◌, refl, arith, leb,
  if◌then◌else◌, Bool-cases, inl, inr,
}
use domain_lifecycle_deploym.Expiry.Status.{
  day, ahead, days_until, at_most, in_grace, compute_expiry_status,
}

days_until-ahead : (e now : ℕ) → now < e → days_until e now ≡ ahead ((e - now + (day - 1)) / day)
unfolding days_until
days_until-ahead e now h = ground (arith, h)

-- The rounded-up number of days is at most `n` exactly if `n` full days reach the date.
at_most-within :
    (n e now : ℕ) → leb e now ≡ false → at_most n (days_until e now) ≡ leb e (now + n * day)
at_most-within n e now h = rw (days_until-ahead e now (ground (arith, h))) (ground (arith, h))

-- The bands, by the times alone.
abbrev pub band : Option ℕ → ℕ → ℕ → Option String
band grace e now =
    if leb e now
    then (if in_grace grace now then some "grace" else some "expired")
    else if leb e (now + 7 * day)
    then some "expiring_7d"
    else if leb e (now + 30 * day)
    then some "expiring_30d"
    else if leb e (now + 90 * day)
    then some "expiring_90d"
    else none

-- The status of a date, which the code finds by rounding days up, is that of the interval in which
-- the date lies: it has passed (in grace or not), or lies within 7, 30 or 90 times 24 hours, both ends
-- included, or further away.
pub compute_expiry_status-band :
    (grace : Option ℕ) (e now : ℕ) → compute_expiry_status (some e) grace now ≡ band grace e now
unfolding compute_expiry_status
compute_expiry_status-band grace e now = elim (Bool-cases (leb e now)) [
  | inl past ↦ rw past refl
  | inr future ↦
      rw
        (
          future,
          at_most-within 7 e now future,
          at_most-within 30 e now future,
          at_most-within 90 e now future,
        )
        refl
]
