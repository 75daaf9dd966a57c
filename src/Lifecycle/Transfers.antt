-- ===== src/Lifecycle/Transfers.antt =====
-- internal/lifecycle/service.go: the transfers of a domain.
use domain_lifecycle_deploym.Base.{
  ℕ, ◌+◌, ap, ◌≡◌, refl, ◌∙◌, String, true, false, Option, none, some, first, map,
  first-update_where, map-update_where,
}
use domain_lifecycle_deploym.Base.Exec.{Session, ok, with_tables, throw, writes, ◌>>◌}
use domain_lifecycle_deploym.Base.Atomic.{reads-kept}
use domain_lifecycle_deploym.Base.Runs.{Ran, Runs, Runs-bind, Runs-reads, Runs-writes, Runs-else}
use domain_lifecycle_deploym.Base.Follows.{
  Star, here, next, one, Follows, follows_rules, Follows-writes,
}
use domain_lifecycle_deploym.Lifecycle.{
  DomainRow, DomainTables, LifecycleDb, call_failed, live, find_domain, pending_transfer,
  set_transfer, initiate_transfer, complete_transfer, cancel_transfer,
}

-- The columns of a transfer.
abbrev pub with_transfer :
    Option String → Option String → Option ℕ → Option ℕ → DomainRow → DomainRow
with_transfer status gaining requested completed d = record d {
  transfer_status = status;
  transfer_gaining_registrar = gaining;
  transfer_requested_at = requested;
  transfer_completed_at = completed;
}

find_domain-Runs :
    (id : ℕ) (d : DomainRow) (t : DomainTables)
    → first (live id) t.domains ≡ some d
    → Runs (find_domain id) t d t
unfolding find_domain
find_domain-Runs id d t h = Runs-reads _ _ t d (rw h refl)

found_after :
    (id : ℕ) (s g : Option String) (r c : Option ℕ) (d : DomainRow) (t : DomainTables)
    → first (live id) t.domains ≡ some d
    → first (live id) (set_transfer id s g r c t).domains ≡ some (with_transfer s g r c d)
found_after id s g r c d t h =
    first-update_where (live id) (with_transfer s g r c) t.domains d h (λ x. refl)

initiate_transfer-Runs :
    (id : ℕ) (g : Option String) (d : DomainRow) (t : DomainTables)
    → first (live id) t.domains ≡ some d
    → pending_transfer d ≡ false
    → Runs
        (initiate_transfer id g)
        t
        (with_transfer (some "pending") g (some t.now) none d)
        (set_transfer id (some "pending") g (some t.now) none t)
unfolding initiate_transfer
initiate_transfer-Runs id g d t h p = Runs-bind _ _ t t _ d _ (find_domain-Runs id d t h) (
    Runs-else _ _ _ t _ _ p (
      Runs-bind _ _ t _ _ tt _ (Runs-writes _ _ t)
        (find_domain-Runs id _ _ (found_after id (some "pending") g (some t.now) none d t h))))

-- Time passes between two requests.
abbrev pub later : ℕ → LifecycleDb Unit
later n d = (ok tt, with_tables d (record d.tables { now = d.tables.now + n }))

abbrev pub clock_on : ℕ → DomainTables → DomainTables
clock_on n t = record t { now = t.now + n }

later-Runs : (n : ℕ) (t : DomainTables) → Runs (later n) t tt (clock_on n t)
later-Runs n t = record {
  at = λ d p q. record { result = refl; tables = ap (clock_on n) p; no_faults = q };
}

completing-Runs :
    (id n : ℕ) (g : Option String) (d : DomainRow) (t : DomainTables)
    → first (live id) t.domains ≡ some d
    → pending_transfer d ≡ false
    → Runs
        (initiate_transfer id g >> (later n >> complete_transfer id))
        t
        (with_transfer (some "completed") g (some t.now) (some (t.now + n)) d)
        (set_transfer id
          (some "completed")
          g
          (some t.now)
          (some (t.now + n))
          (clock_on n (set_transfer id (some "pending") g (some t.now) none t)))
unfolding complete_transfer
completing-Runs id n g d t h p =
    let u = set_transfer id (some "pending") g (some t.now) none t in
    let w = clock_on n u in
    let k = found_after id (some "pending") g (some t.now) none d t h in
    Runs-bind _ _ t u _ _ _ (initiate_transfer-Runs id g d t h p) (
      Runs-bind _ _ u w _ tt _ (later-Runs n u) (
        Runs-bind _ _ w w _ _ _ (find_domain-Runs id _ w k) (
          Runs-bind _ _ w _ _ tt _ (Runs-writes _ _ w) (
            find_domain-Runs id _ _
              (found_after id (some "completed") g (some t.now) (some (t.now + n)) _ w k)))))

-- A transfer that is initiated while one is pending changes nothing, whatever calls fail.
initiate_transfer-guarded :
    (id : ℕ) (g : Option String) (d : DomainRow) (e : Session DomainTables)
    → first (live id) e.tables.domains ≡ some d
    → pending_transfer d ≡ true
    → (initiate_transfer id g e).1.tables ≡ e.tables
unfolding initiate_transfer find_domain throw
initiate_transfer-guarded id g d e h p = reads-kept _ _ _ e d (rw h refl) (rw p refl)

-- A transfer that is completed or cancelled while none is pending changes nothing, whatever calls fail.
transfer_end-guarded :
    (id : ℕ) (d : DomainRow) (e : Session DomainTables)
    → first (live id) e.tables.domains ≡ some d
    → pending_transfer d ≡ false
    → ((complete_transfer id e).1.tables ≡ e.tables) × ((cancel_transfer id e).1.tables ≡ e.tables)
unfolding complete_transfer cancel_transfer find_domain throw
transfer_end-guarded id d e h p =
    (reads-kept _ _ _ e d (rw h refl) (rw p refl), reads-kept _ _ _ e d (rw h refl) (rw p refl))

abbrev pub lifecycle_of : DomainRow → ℕ × String
lifecycle_of d = (d.id, d.lifecycle_state)

-- The lifecycle states by ID, and the history, are the same.
abbrev pub SameLifecycle : DomainTables → DomainTables → Type 0
SameLifecycle s t =
    (map lifecycle_of t.domains ≡ map lifecycle_of s.domains) × (t.history ≡ s.history)

all_same : (s t : DomainTables) → Star SameLifecycle s t → SameLifecycle s t
all_same s _ here = (refl, refl)
all_same s t (next {t = m} p (a, b)) = let (x, y) = all_same s m p in (a ∙ x, b ∙ y)

set_transfer-SameLifecycle :
    (id : ℕ) (s g : Option String) (r c : Option ℕ) (t : DomainTables)
    → SameLifecycle t (set_transfer id s g r c t)
set_transfer-SameLifecycle id s g r c t =
    (map-update_where lifecycle_of (live id) (with_transfer s g r c) t.domains (λ x. refl), refl)

write-Same :
    (id : ℕ) (s g : Option String) (r c : DomainTables → Option ℕ)
    → Follows SameLifecycle (writes call_failed (λ t. set_transfer id s g (r t) (c t) t))
write-Same id s g r c =
    Follows-writes _ _ (λ t. one (set_transfer-SameLifecycle id s g (r t) (c t) t))

initiate_transfer-Same :
    (id : ℕ) (g : Option String) → Follows SameLifecycle (initiate_transfer id g)
unfolding initiate_transfer find_domain
initiate_transfer-Same id g = search (follows_rules, write-Same) depth 8

complete_transfer-Same : (id : ℕ) → Follows SameLifecycle (complete_transfer id)
unfolding complete_transfer find_domain
complete_transfer-Same id = search (follows_rules, write-Same) depth 8

cancel_transfer-Same : (id : ℕ) → Follows SameLifecycle (cancel_transfer id)
unfolding cancel_transfer find_domain
cancel_transfer-Same id = search (follows_rules, write-Same) depth 8

-- The operations on transfers change no lifecycle state and no row of the lifecycle history,
-- whatever calls fail.
pub transfers-SameLifecycle :
    (id : ℕ) (g : Option String) (d : Session DomainTables)
    → SameLifecycle d.tables (initiate_transfer id g d).1.tables
      × (SameLifecycle d.tables (complete_transfer id d).1.tables
          × SameLifecycle d.tables (cancel_transfer id d).1.tables)
transfers-SameLifecycle id g d = (
  all_same _ _ ((initiate_transfer-Same id g).at d),
  (all_same _ _ ((complete_transfer-Same id).at d), all_same _ _ ((cancel_transfer-Same id).at d)),
)

-- With no call failing, a transfer that is initiated for a live domain with none pending, and completed
-- some time later, gives the domain with the transfer completed, the gaining registrar named, the time
-- of the request and the later time of the completion; the rest of its row is as before.
pub transfer-completes :
    (id n : ℕ) (g : Option String) (d : DomainRow) (d0 : Session DomainTables)
    → first (live id) d0.tables.domains ≡ some d
    → pending_transfer d ≡ false
    → ((k : ℕ) → d0.faults k ≡ false)
    → Ran
        ((initiate_transfer id g >> (later n >> complete_transfer id)) d0)
        (with_transfer (some "completed") g (some d0.tables.now) (some (d0.tables.now + n)) d)
        (set_transfer id
          (some "completed")
          g
          (some d0.tables.now)
          (some (d0.tables.now + n))
          (clock_on n (set_transfer id (some "pending") g (some d0.tables.now) none d0.tables)))
transfer-completes id n g d d0 h0 h1 q = (completing-Runs id n g d d0.tables h0 h1).at d0 refl q
