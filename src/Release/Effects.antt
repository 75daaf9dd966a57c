-- ===== src/Release/Effects.antt =====
-- The specification of the release service: whatever an operation does, and whatever calls fail in it,
-- it changes the statuses and the audit trail only by the steps of `Effect`.
pub mod Statements
pub mod Writes
pub mod Operations
use domain_lifecycle_deploym.Base.{
  ℕ, suc, ◌≤◌, ◌≡◌, refl, ap, String, str_eq, eq_iff, Bool, true, false, Option, none, some, List,
  [], ◌∷◌, ◌++◌, map, arith, ◌==◌, if◌then◌else◌, first, update_where, map-update_where, map-append,
  Option-cases, ◌⊎◌, inl, inr,
}
use native.Mathlib.Nat.{le_refl}
use domain_lifecycle_deploym.Base.Exec.{Session, Res, ok, err, query, reads, writes, throw, ◌>>=◌}
use domain_lifecycle_deploym.Base.Follows.{Star, one}
use domain_lifecycle_deploym.Release.Tables.{
  Failure, Reason, text, Actor, Release, HistoryRow, Tables,
}
use domain_lifecycle_deploym.Release.Graph.{can_release_transition}
use domain_lifecycle_deploym.Release.Store.{is_release, set_release, insert_history, transition_tx}

-- The statuses of the releases, by ID.
abbrev pub status_pair : Release → ℕ × String
status_pair r = (r.id, r.status)

abbrev pub statuses : Tables → List (ℕ × String)
statuses t = map status_pair t.releases

unfoldable pub lookup_status : ℕ → List (ℕ × String) → Option String
lookup_status id [] = none
lookup_status id ((k, s) ∷ rest) = if k == id then some s else lookup_status id rest

unfoldable pub set_status : ℕ → String → List (ℕ × String) → List (ℕ × String)
set_status id to [] = []
set_status id to ((k, s) ∷ rest) = (k, if k == id then to else s) ∷ set_status id to rest

abbrev pub audit_row : ℕ → Option String → String → Reason → Actor → HistoryRow
audit_row id from to reason by = record {
  release_id = id;
  from_state = from;
  to_state = to;
  reason = reason;
  triggered_by = by;
}

pub data Effect (s t : Tables) : Type 0 where
  -- no status and no audit row changes
  quiet : statuses t ≡ statuses s → t.history ≡ s.history → s.next_id ≤ t.next_id → Effect s t
  -- an edge of the graph, with its audit row, in one step
  move :
      (id : ℕ) (from to : String) (reason : Reason) (by : Actor)
      → lookup_status id (statuses s) ≡ some from
      → can_release_transition from to ≡ true
      → statuses t ≡ set_status id to (statuses s)
      → t.history ≡ s.history ++ audit_row id (some from) to reason by ∷ []
      → t.next_id ≡ s.next_id
      → Effect s t
  -- a new release is pending
  created :
      statuses t ≡ statuses s ++ (s.next_id, "pending") ∷ []
      → t.history ≡ s.history
      → t.next_id ≡ suc s.next_id
      → Effect s t
  -- the audit row of a creation has no state before
  logged :
      (id : ℕ) (reason : Reason) (by : Actor)
      → statuses t ≡ statuses s
      → t.history ≡ s.history ++ audit_row id none "pending" reason by ∷ []
      → t.next_id ≡ s.next_id
      → Effect s t

pub lookup-statuses :
    (id : ℕ) (rs : List Release)
    → lookup_status id (map status_pair rs)
      ≡ elim (first (is_release id) rs) [ none ↦ none | some r ↦ some r.status ]
unfolding lookup_status first
lookup-statuses id [] = refl
lookup-statuses id (r ∷ rs) = ground (arith, lookup-statuses id rs)

pub set-statuses :
    (id : ℕ) (to : String) (rs : List Release)
    → map status_pair (update_where (is_release id) (λ r. record r { status = to }) rs)
      ≡ set_status id to (map status_pair rs)
unfolding set_status update_where
set-statuses id to [] = refl
set-statuses id to (r ∷ rs) = ground (arith, set-statuses id to rs)

-- What the body of a transition has done when it returns.
abbrev pub moved : ℕ → String → String → Reason → Actor → Tables → Tables
moved id from to reason by t =
    insert_history (audit_row id (some from) to reason by)
      (set_release id (λ r. record r { status = to }) t)

pub transition_tx_ok :
    (id : ℕ) (from to : String) (reason : Reason) (by : Actor) (d : Session Tables) (u : Unit {0})
    → (transition_tx id from to reason by d).0 ≡ ok u
    → (r : Release) × (first (is_release id) d.tables.releases ≡ some r)
      × (r.status ≡ from)
      × ((transition_tx id from to reason by d).1.tables ≡ moved id from to reason by d.tables)
unfolding transition_tx
transition_tx_ok id from to reason by d u h =
    elim (Option-cases (first (is_release id) d.tables.releases)) [
      | inl e ↦ absurd (ground arith)
      | inr (r, e) ↦ (r, e, ground (arith, eq_iff r.status from), ground arith)
    ]
