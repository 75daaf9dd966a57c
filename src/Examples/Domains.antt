-- ===== src/Examples/Domains.antt =====
-- Concrete inputs for the statements about the lifecycle of a domain.
use domain_lifecycle_deploym.Base.{◌≡◌, refl, ◌⊎◌, false, none, some, [], ◌∷◌, first}
use domain_lifecycle_deploym.Base.Exec.{Session, ok, ◌>>◌}
use domain_lifecycle_deploym.Base.Atomic.{Refused}
use domain_lifecycle_deploym.Base.Runs.{Ran}
use domain_lifecycle_deploym.Lifecycle.{
  DomainRow, DomainTables, live, set_transfer, transition_domain, initiate_transfer,
  complete_transfer, cancel_transfer,
}
use domain_lifecycle_deploym.Lifecycle.Transitions.{StateChanged, transition_domain-Atomic}
use domain_lifecycle_deploym.Lifecycle.Transfers.{
  with_transfer, later, clock_on, SameLifecycle, transfer-completes, transfers-SameLifecycle,
}

abbrev site : DomainRow
site = record {
  id = 4;
  project_id = 1;
  fqdn = "a.com";
  lifecycle_state = "active";
  transfer_status = none;
  transfer_gaining_registrar = none;
  transfer_requested_at = none;
  transfer_completed_at = none;
  is_deleted = false;
}

abbrev sites : DomainTables
sites = record { now = 100; next_id = 5; domains = site ∷ []; history = [] }

abbrev session : Session DomainTables
session = record { tables = sites; faults = λ n. false; calls = 0 }

is_live : first (live 4) sites.domains ≡ some site
unfolding first
is_live = refl

transition_domain-Atomic_example :
    (((transition_domain 4 "active" "disabled" "abuse" "ops" session).0 ≡ ok tt)
      × StateChanged 4 "active" "disabled" "abuse" "ops" sites
          (transition_domain 4 "active" "disabled" "abuse" "ops" session).1.tables)
    ⊎ Refused sites (transition_domain 4 "active" "disabled" "abuse" "ops" session)
transition_domain-Atomic_example =
    transition_domain-Atomic 4 "active" "disabled" "abuse" "ops" session

transfer-completes_example :
    Ran
      ((initiate_transfer 4 (some "gandi") >> (later 5 >> complete_transfer 4)) session)
      (with_transfer (some "completed") (some "gandi") (some 100) (some 105) site)
      (set_transfer 4
        (some "completed")
        (some "gandi")
        (some 100)
        (some 105)
        (clock_on 5 (set_transfer 4 (some "pending") (some "gandi") (some 100) none sites)))
transfer-completes_example =
    transfer-completes 4 5 (some "gandi") site session is_live refl (λ n. refl)

abbrev moving : Session DomainTables
moving = record session {
  tables = record sites { domains = with_transfer (some "pending") none (some 90) none site ∷ [] };
}

moving_there :
    first (live 4) moving.tables.domains
    ≡ some (with_transfer (some "pending") none (some 90) none site)
unfolding first
moving_there = refl

transfers-SameLifecycle_example :
    SameLifecycle sites (initiate_transfer 4 none session).1.tables
    × (SameLifecycle sites (complete_transfer 4 session).1.tables
        × SameLifecycle sites (cancel_transfer 4 session).1.tables)
transfers-SameLifecycle_example = transfers-SameLifecycle 4 none session
