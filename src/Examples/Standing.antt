-- ===== src/Examples/Standing.antt =====
-- Concrete grants and domains for the statements on permissions and expiry that have hypotheses.
use domain_lifecycle_deploym.Base.{
  if◌then◌else◌, ℕ, ◌≤◌, ◌+◌, ◌*◌, ◌≡◌, refl, String, true, false, Option, none, some, List, [],
  ◌∷◌, arith, any, select, sort_by, ◌==◌,
}
use domain_lifecycle_deploym.Base.Exec.{Session, ◌>>◌}
use domain_lifecycle_deploym.Base.Runs.{Ran}
use domain_lifecycle_deploym.Base.Ends.{Ended}
use domain_lifecycle_deploym.Base.Always.{Post}
use domain_lifecycle_deploym.Access.Levels.{permission_rank, rank_of}
use domain_lifecycle_deploym.Access.Store.{AccessTables}
use domain_lifecycle_deploym.Access.Service.{
  grant_permission, revoke_permission, admitted, refused, require_dns_permission,
}
use domain_lifecycle_deploym.Access.Decisions.{is_allowed, require_dns_permission-Admits}
use domain_lifecycle_deploym.Access.Grants.{level_at, is_same, grant_permission-Granted}
use domain_lifecycle_deploym.Expiry.Status.{day, compute_expiry_status}
use domain_lifecycle_deploym.Expiry.Check.{
  ExpiryRow, ExpiryStateChange, take, page_limit, first_page, check_all_expiry,
}
use domain_lifecycle_deploym.Expiry.Bands.{band, compute_expiry_status-band}
use domain_lifecycle_deploym.Expiry.Pages.{rows_of, check_all_expiry-Bounded}
use domain_lifecycle_deploym.Expiry.Notices.{
  messages_under, changes_for, group_by_status, group_by_status-Partitions,
}

-- The user 3 is an operator and has a viewer's grant for domain 4.
abbrev staff : AccessTables
staff = record {
  now = 9000;
  next_id = 6;
  permissions =
      record {
        id = 5;
        domain_id = 4;
        user_id = 3;
        permission = "viewer";
        granted_by = some 1;
        granted_at = 8000;
      }
      ∷ [];
  roles = record { id = 2; name = "operator" } ∷ [];
  user_roles = record { user_id = 3; role_id = 2; granted_by = none } ∷ [];
}

abbrev office : Session AccessTables
office = record { tables = staff; faults = λ n. false; calls = 0 }

editor_ranked : 1 ≤ rank_of "editor"
unfolding permission_rank
editor_ranked = omega arith

admin_ranked : permission_rank "admin" ≡ some 3
unfolding permission_rank
admin_ranked = refl

require_dns_permission-Admits_example :
    Ran
      (require_dns_permission 3 (some 4) "editor" office)
      (if is_allowed (rank_of "editor") 4 3 staff then admitted else refused 40300)
      staff
require_dns_permission-Admits_example =
    require_dns_permission-Admits 4 3 "editor" office editor_ranked (omega arith) (λ n. refl)

grant_permission-Granted_example :
    Ended
      (grant_permission 4 3 "admin" 1 office)
      (λ t. level_at 4 3 t ≡ (if is_same 4 3 4 3 then some "admin" else level_at 4 3 staff))
    × Ended
        ((grant_permission 4 3 "admin" 1 >> revoke_permission 4 3) office)
        (λ t. level_at 4 3 t ≡ (if is_same 4 3 4 3 then none else level_at 4 3 staff))
grant_permission-Granted_example =
    grant_permission-Granted 4 3 4 3 "admin" 1 3 office admin_ranked (λ n. refl)

-- Seven days to the second.
compute_expiry_status-band_example :
    compute_expiry_status (some (5 + 7 * day)) none 5 ≡ band none (5 + 7 * day) 5
compute_expiry_status-band_example = compute_expiry_status-band none (5 + 7 * day) 5

abbrev expiring : ℕ → ExpiryRow
expiring id = record {
  id = id;
  fqdn = "example.org";
  lifecycle_state = "active";
  expiry_date = some 100;
  grace_end_date = none;
  expiry_status = none;
  is_deleted = false;
}

abbrev watched : List ExpiryRow
watched = expiring 2 ∷ record (expiring 9) { is_deleted = true } ∷ expiring 1 ∷ []

abbrev night : Session (List ExpiryRow)
night = record { tables = watched; faults = λ n. n == 1; calls = 0 }

deleted_unlisted : any (λ r. r.id == 9) (first_page 10000 watched) ≡ false
unfolding first_page take page_limit sort_by select any
deleted_unlisted = refl

check_all_expiry-Bounded_example :
    Post
      (λ r rows. (rows_of 9 rows ≡ rows_of 9 watched) × (r.checked ≤ 200))
      (λ rows. rows_of 9 rows ≡ rows_of 9 watched)
      (check_all_expiry 500 night).0
      (check_all_expiry 500 night).1.tables
check_all_expiry-Bounded_example = check_all_expiry-Bounded 500 9 night deleted_unlisted

abbrev change_to : Option String → ExpiryStateChange
change_to status = record {
  domain_id = 1;
  fqdn = "example.org";
  expiry_date = 100;
  old_status = some "expiring_7d";
  new_status = status;
}

abbrev changes_seen : List ExpiryStateChange
changes_seen = change_to (some "grace") ∷ change_to none ∷ change_to (some "expired") ∷ []

group_by_status-Partitions_example :
    (messages_under "expired" (group_by_status changes_seen) ≡ 1)
    × (changes_for "expired" (group_by_status changes_seen)
        ≡ change_to none ∷ change_to (some "expired") ∷ [])
unfolding any select
group_by_status-Partitions_example = group_by_status-Partitions "expired" changes_seen
