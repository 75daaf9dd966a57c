-- ===== src/Lifecycle.antt =====
-- internal/lifecycle/statemachine.go and service.go, store/postgres/lifecycle.go, and the statements of
-- store/postgres/domain.go that they use: the lifecycle of a domain and the transfer of a domain to
-- another registrar. The asset columns that Register only copies are left out, with the TLD.
pub mod Transitions
pub mod Transfers
use domain_lifecycle_deploym.Base.{
  ℕ, suc, String, str_eq, Bool, true, false, not, ◌&&◌, Option, none, some, List, [], ◌∷◌, ◌++◌,
  ◌==◌, if◌then◌else◌, first, any, update_where,
}
use domain_lifecycle_deploym.Base.Graph.{Graph, targets, has_edge}
use domain_lifecycle_deploym.Base.Exec.{
  Res, ok, err, Exec, pure, throw, query, reads, writes, transaction, ignore, ◌>>=◌, ◌>>◌,
}

abbrev pub valid_lifecycle_transitions : Graph
valid_lifecycle_transitions =
    ("requested", "approved" ∷ "retired" ∷ [])
    ∷ ("approved", "provisioned" ∷ "retired" ∷ [])
    ∷ ("provisioned", "active" ∷ "disabled" ∷ "retired" ∷ [])
    ∷ ("active", "disabled" ∷ "retired" ∷ [])
    ∷ ("disabled", "active" ∷ "retired" ∷ [])
    ∷ ("retired", [])
    ∷ []

unfoldable pub can_lifecycle_transition : String → String → Bool
can_lifecycle_transition from to = has_edge valid_lifecycle_transitions from to

-- A missing key reads as the nil slice.
unfoldable pub valid_lifecycle_targets : String → List String
valid_lifecycle_targets from = elim (targets from valid_lifecycle_transitions) [
  | none ↦ []
  | some ts ↦ ts
]

pub data LifecycleError : Type 0 where
  -- a call that fails, whatever the reason
  call_failed : LifecycleError
  no_domain invalid_lifecycle_state lifecycle_race_condition duplicate_fqdn : LifecycleError
  transfer_already_pending no_active_transfer : LifecycleError

pub record DomainRow : Type 0 where
  pub id : ℕ
  pub project_id : ℕ
  pub fqdn : String
  pub lifecycle_state : String
  pub transfer_status : Option String
  pub transfer_gaining_registrar : Option String
  pub transfer_requested_at : Option ℕ
  pub transfer_completed_at : Option ℕ
  pub is_deleted : Bool

pub record LifecycleHistoryEntry : Type 0 where
  pub domain_id : ℕ
  pub from_state : Option String
  pub to_state : String
  pub reason : String
  pub triggered_by : String

pub record DomainTables : Type 0 where
  pub now : ℕ
  pub next_id : ℕ
  pub domains : List DomainRow
  pub history : List LifecycleHistoryEntry

abbrev pub LifecycleDb : Type 0 → Type 0
LifecycleDb A = Exec LifecycleError DomainTables A

-- `id = $1 AND deleted_at IS NULL`.
abbrev pub live : ℕ → DomainRow → Bool
live id d = (d.id == id) && not d.is_deleted

abbrev pub or_error : {A : Type 0} → LifecycleError → Option A → Res LifecycleError A
or_error e none = err e
or_error e (some a) = ok a

unfoldable pub find_domain : ℕ → LifecycleDb DomainRow
unfolding reads
find_domain id = reads call_failed (λ t. or_error no_domain (first (live id) t.domains))

-- `UPDATE domains SET lifecycle_state`, which does not look at `deleted_at`.
abbrev pub set_state : ℕ → String → DomainTables → DomainTables
set_state id to t = record t {
  domains = update_where (λ d. d.id == id) (λ d. record d { lifecycle_state = to }) t.domains;
}

abbrev pub add_history : LifecycleHistoryEntry → DomainTables → DomainTables
add_history h t = record t { history = t.history ++ h ∷ [] }

unfoldable pub update_lifecycle_state_tx : ℕ → String → LifecycleDb Unit
unfolding writes
update_lifecycle_state_tx id to = writes call_failed (set_state id to)

unfoldable pub insert_lifecycle_history_tx : LifecycleHistoryEntry → LifecycleDb Unit
unfolding writes
insert_lifecycle_history_tx h = writes call_failed (add_history h)

abbrev pub entry : ℕ → Option String → String → String → String → LifecycleHistoryEntry
entry id from to reason by = record {
  domain_id = id;
  from_state = from;
  to_state = to;
  reason = reason;
  triggered_by = by;
}

-- SELECT … FOR UPDATE, the optimistic check, the write, and the audit row. A row that is not there is
-- an error of the call.
unfoldable pub transition_domain_tx : ℕ → String → String → String → String → LifecycleDb Unit
unfolding reads ◌>>=◌ throw update_lifecycle_state_tx insert_lifecycle_history_tx
transition_domain_tx id expected_from to reason by = do
  current ← reads call_failed (λ t. or_error call_failed (first (live id) t.domains))
  if str_eq current.lifecycle_state expected_from
      then (do
        update_lifecycle_state_tx id to
        insert_lifecycle_history_tx (entry id (some expected_from) to reason by))
      else throw lifecycle_race_condition

unfoldable pub transition_domain : ℕ → String → String → String → String → LifecycleDb Unit
unfolding transaction transition_domain_tx can_lifecycle_transition throw
transition_domain id from to reason by =
    if can_lifecycle_transition from to
    then transaction call_failed call_failed (transition_domain_tx id from to reason by)
    else throw invalid_lifecycle_state

abbrev pub new_domain : ℕ → String → DomainTables → DomainRow
new_domain project_id fqdn t = record {
  id = t.next_id;
  project_id = project_id;
  fqdn = fqdn;
  lifecycle_state = "requested";
  transfer_status = none;
  transfer_gaining_registrar = none;
  transfer_requested_at = none;
  transfer_completed_at = none;
  is_deleted = false;
}

abbrev pub domain_inserted :
    DomainRow → DomainTables → Bool → Res LifecycleError DomainRow × DomainTables
domain_inserted d t true = (err duplicate_fqdn, t)
domain_inserted d t false =
    (ok d, record t { next_id = suc t.next_id; domains = t.domains ++ d ∷ [] })

-- INSERT INTO domains; `uq_domains_fqdn` refuses a second row with the name, deleted rows included.
unfoldable pub create_domain : ℕ → String → LifecycleDb DomainRow
unfolding query
create_domain project_id fqdn = query call_failed (λ t.
    domain_inserted (new_domain project_id fqdn t) t (any (λ d. str_eq d.fqdn fqdn) t.domains))

-- The history row of a registration; when it fails the domain stays.
unfoldable pub register : ℕ → String → String → LifecycleDb DomainRow
unfolding create_domain insert_lifecycle_history_tx
register project_id fqdn by = do
  created ← create_domain project_id fqdn
  ignore (
      transaction call_failed call_failed
        (insert_lifecycle_history_tx (entry created.id none "requested" "domain registered" by)))
  pure created

abbrev pub pending_transfer : DomainRow → Bool
pending_transfer d = elim d.transfer_status [ none ↦ false | some s ↦ str_eq s "pending" ]

abbrev pub set_transfer :
    ℕ → Option String → Option String → Option ℕ → Option ℕ → DomainTables → DomainTables
set_transfer id status gaining requested completed t = record t {
  domains =
      update_where (live id)
        (λ d. record d {
          transfer_status = status;
          transfer_gaining_registrar = gaining;
          transfer_requested_at = requested;
          transfer_completed_at = completed;
        })
        t.domains;
}

-- `time.Now()` of the caller is the tables' clock.
unfoldable pub initiate_transfer : ℕ → Option String → LifecycleDb DomainRow
unfolding find_domain writes
initiate_transfer id gaining = do
  d ← find_domain id
  if pending_transfer d then throw transfer_already_pending else (do
    writes call_failed (λ t. set_transfer id (some "pending") gaining (some t.now) none t)
    find_domain id)

unfoldable pub complete_transfer : ℕ → LifecycleDb DomainRow
unfolding find_domain writes
complete_transfer id = do
  d ← find_domain id
  if pending_transfer d
      then (do
        writes call_failed (λ t.
            set_transfer id (some "completed") d.transfer_gaining_registrar d.transfer_requested_at
              (some t.now) t)
        find_domain id)
      else throw no_active_transfer

unfoldable pub cancel_transfer : ℕ → LifecycleDb DomainRow
unfolding find_domain writes
cancel_transfer id = do
  d ← find_domain id
  if pending_transfer d
      then (do
        writes call_failed (set_transfer id (some "cancelled") none none none)
        find_domain id)
      else throw no_active_transfer
