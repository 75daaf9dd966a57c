-- ===== src/Expiry/Check.antt =====
-- internal/domain/expiry.go, CheckAllExpiry, and the two statements of store/postgres/domain.go.
use domain_lifecycle_deploym.Base.{
  ℕ, zero, suc, String, str_eq, Bool, not, ◌&&◌, Option, none, some, List, [], ◌∷◌, ◌++◌, ◌==◌, ltb,
  leb, if◌then◌else◌, select, sort_by, update_where,
}
use domain_lifecycle_deploym.Base.Exec.{ok, Exec, pure, reads, writes, handle, ◌>>=◌}
use domain_lifecycle_deploym.Expiry.Status.{compute_expiry_status, status_equal}

-- The columns of `domains` that the check uses.
pub record ExpiryRow : Type 0 where
  pub id : ℕ
  pub fqdn : String
  pub lifecycle_state : String
  pub expiry_date : Option ℕ
  pub grace_end_date : Option ℕ
  pub expiry_status : Option String
  pub is_deleted : Bool

pub data ExpiryError : Type 0 where
  list_failed update_failed : ExpiryError

abbrev pub ExpiryDb : Type 0 → Type 0
ExpiryDb A = Exec ExpiryError (List ExpiryRow) A

unfoldable pub take {ℓ} : {A : Type ℓ} → ℕ → List A → List A
take zero xs = []
take (suc n) [] = []
take (suc n) (x ∷ xs) = x ∷ take n xs

-- The limit of the query: 20 if none is given, and 200 at most.
unfoldable pub page_limit : ℕ → ℕ
page_limit n = if n == 0 then 20 else if ltb 200 n then 200 else n

-- The first page of all domains: the check gives no filter and a cursor of 0, and the model no other.
unfoldable pub first_page : ℕ → List ExpiryRow → List ExpiryRow
unfolding take page_limit sort_by select
first_page limit rows =
    take (page_limit limit)
      (sort_by (λ a b. leb a.id b.id) (select (λ d. not d.is_deleted && ltb 0 d.id) rows))

unfoldable pub list_with_filter : ℕ → ExpiryDb (List ExpiryRow)
unfolding reads first_page
list_with_filter limit = reads list_failed (λ rows. ok (first_page limit rows))

abbrev pub status_set : ℕ → Option String → List ExpiryRow → List ExpiryRow
status_set id status =
    update_where (λ d. d.id == id && not d.is_deleted) (λ d. record d { expiry_status = status })

unfoldable pub update_expiry_status : ℕ → Option String → ExpiryDb Unit
unfolding writes
update_expiry_status id status = writes update_failed (status_set id status)

pub record ExpiryStateChange : Type 0 where
  pub domain_id : ℕ
  pub fqdn : String
  pub expiry_date : ℕ
  pub old_status : Option String
  pub new_status : Option String

pub record ExpiryCheckResult : Type 0 where
  pub checked : ℕ
  pub changed : List ExpiryStateChange

abbrev pub add_change : ExpiryStateChange → ExpiryCheckResult → ExpiryCheckResult
add_change c r = record r { changed = r.changed ++ c ∷ [] }

abbrev pub change_of : ExpiryRow → ℕ → Option String → ExpiryStateChange
change_of d expiry status = record {
  domain_id = d.id;
  fqdn = d.fqdn;
  expiry_date = expiry;
  old_status = d.expiry_status;
  new_status = status;
}

-- A domain with an expiry date that is not retired; `r` counts it already.
abbrev pub check_dated :
    ℕ
    → ExpiryRow
    → ℕ
    → ExpiryCheckResult
    → (ExpiryCheckResult → ExpiryDb ExpiryCheckResult)
    → ExpiryDb ExpiryCheckResult
check_dated now d expiry r rest =
    let status = compute_expiry_status (some expiry) d.grace_end_date now in
    if status_equal d.expiry_status status
    then rest r
    else handle (update_expiry_status d.id status) (λ _. rest r)
        (λ _. rest (add_change (change_of d expiry status) r))

abbrev pub counted_one : ExpiryCheckResult → ExpiryCheckResult
counted_one r = record r { checked = suc r.checked }

abbrev pub check_row :
    ℕ
    → ExpiryRow
    → Option ℕ
    → ExpiryCheckResult
    → (ExpiryCheckResult → ExpiryDb ExpiryCheckResult)
    → ExpiryDb ExpiryCheckResult
check_row now d none r rest = rest r
check_row now d (some expiry) r rest =
    if str_eq d.lifecycle_state "retired"
    then rest r
    else check_dated now d expiry (counted_one r) rest

unfoldable pub check_rows : ℕ → List ExpiryRow → ExpiryCheckResult → ExpiryDb ExpiryCheckResult
check_rows now [] r = pure r
check_rows now (d ∷ ds) r = check_row now d d.expiry_date r (check_rows now ds)

abbrev pub nothing_checked : ExpiryCheckResult
nothing_checked = record { checked = 0; changed = [] }

-- `now` is the time of the call.
unfoldable pub check_all_expiry : ℕ → ExpiryDb ExpiryCheckResult
check_all_expiry now = do domains ← list_with_filter 10000; check_rows now domains nothing_checked
