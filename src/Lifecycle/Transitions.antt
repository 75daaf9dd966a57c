-- ===== src/Lifecycle/Transitions.antt =====
-- internal/lifecycle: a transition of a domain happens with its audit row, or not at all.
use domain_lifecycle_deploym.Base.{
  ℕ, ◌≡◌, refl, ◌∙◌, String, true, some, arith, ◌⊎◌, inl, inr, Bool-cases, Option-cases, eq_iff,
  first,
}
use domain_lifecycle_deploym.Base.Exec.{Session, ok, throw, counted}
use domain_lifecycle_deploym.Base.Atomic.{Refused, transaction_cases}
use domain_lifecycle_deploym.Lifecycle.{
  call_failed, invalid_lifecycle_state, DomainRow, DomainTables, live, entry, set_state,
  add_history, can_lifecycle_transition, transition_domain_tx, transition_domain,
}

transition_domain_tx_ok :
    (id : ℕ) (from to reason by : String) (d : Session DomainTables) (u : Unit {0})
    → (transition_domain_tx id from to reason by d).0 ≡ ok u
    → (r : DomainRow) × (first (live id) d.tables.domains ≡ some r)
      × (r.lifecycle_state ≡ from)
      × ((transition_domain_tx id from to reason by d).1.tables
          ≡ add_history (entry id (some from) to reason by) (set_state id to d.tables))
unfolding transition_domain_tx
transition_domain_tx_ok id from to reason by d u h =
    elim (Option-cases (first (live id) d.tables.domains)) [
      | inl e ↦ absurd (ground arith)
      | inr (r, e) ↦ (r, e, ground (arith, eq_iff r.lifecycle_state from), ground arith)
    ]

-- The edge is in the graph, the domain is live and had the state `from`, and now it has `to` and the row.
abbrev pub StateChanged :
    ℕ → String → String → String → String → DomainTables → DomainTables → Type 0
StateChanged id from to reason by t u =
    (can_lifecycle_transition from to ≡ true)
    × (((r : DomainRow) × ((first (live id) t.domains ≡ some r) × (r.lifecycle_state ≡ from)))
        × (u ≡ add_history (entry id (some from) to reason by) (set_state id to t)))

-- A lifecycle transition either returns, and then the graph has the edge, the domain is not deleted
-- and had the state `from`, and the tables have the new state and the audit row; or it fails and
-- the tables are as before, whatever call failed in it.
pub transition_domain-Atomic :
    (id : ℕ) (from to reason by : String) (d : Session DomainTables)
    → (((transition_domain id from to reason by d).0 ≡ ok tt)
        × StateChanged id from to reason by d.tables
            (transition_domain id from to reason by d).1.tables)
      ⊎ Refused d.tables (transition_domain id from to reason by d)
unfolding transition_domain throw
transition_domain-Atomic id from to reason by d =
    elim (Bool-cases (can_lifecycle_transition from to)) [
      | inl c ↦
          rw c
            (elim (transaction_cases call_failed call_failed
              (transition_domain_tx id from to reason by) d) [
                | inl (u, (returned, (h, same))) ↦
                    let (r, f, s, after) =
                      transition_domain_tx_ok id from to reason by (counted d) u returned in
                    inl (h, (refl, ((r, (f, s)), same ∙ after)))
                | inr x ↦ inr x
              ])
      | inr c ↦ rw c (inr ((invalid_lifecycle_state, refl), refl))
    ]
