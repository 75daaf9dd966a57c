-- ===== src/Access/Decisions.antt =====
-- internal/domain/permission.go: the effective level against the roles and the grant it comes from.
use domain_lifecycle_deploym.Base.{
  ℕ, ◌≤◌, String, Bool, false, ◌||◌, Option, none, some, List, [], ◌∷◌, ◌≡◌, refl, arith, ◌==◌, leb,
  any, first, if◌then◌else◌, subst,
}
use domain_lifecycle_deploym.Base.Exec.{Session, pure, branch, on_option}
use domain_lifecycle_deploym.Base.Runs.{
  Ran, Runs, Runs-pure, Runs-reads, Runs-bind, Runs-handle, Runs-else, Runs-handle-reads,
}
use domain_lifecycle_deploym.Access.Levels.{
  permission_rank, rank_of, better, best_of_roles, global_role_to_permission, better_or_same,
}
use domain_lifecycle_deploym.Access.Store.{
  DomainPermission, AccessTables, AccessError, call_failed, grants, or_not_found, find_permission,
  role_names, get_user_roles,
}
use domain_lifecycle_deploym.Access.Service.{
  unless_absent, effective_permission, has_permission, admitted, refused, require_dns_permission,
}

-- A role gives the level `n` or more.
abbrev pub level_reaches : ℕ → Option String → Bool
level_reaches n none = false
level_reaches n (some p) = leb n (rank_of p)

abbrev pub role_reaches : ℕ → String → Bool
role_reaches n r = level_reaches n (global_role_to_permission r)

better-reaches :
    (n : ℕ) (best p : String)
    → leb n (rank_of (better best p)) ≡ (leb n (rank_of best) || leb n (rank_of p))
unfolding better
better-reaches n best p = ground arith

better_or_same-reaches :
    (n : ℕ) (best : String) (o : Option String)
    → leb n (rank_of (better_or_same best o)) ≡ (leb n (rank_of best) || level_reaches n o)
better_or_same-reaches n best none = ground arith
better_or_same-reaches n best (some p) = better-reaches n best p

best_of_roles-reaches :
    (n : ℕ) (best : String) (rs : List String)
    → leb n (rank_of (best_of_roles best rs)) ≡ (leb n (rank_of best) || any (role_reaches n) rs)
unfolding best_of_roles any
best_of_roles-reaches n best [] = ground arith
best_of_roles-reaches n best (r ∷ rs) = ground (
  arith,
  best_of_roles-reaches n (better_or_same best (global_role_to_permission r)) rs,
  better_or_same-reaches n best (global_role_to_permission r),
)

abbrev pub grant_reaches : ℕ → Option DomainPermission → Bool
grant_reaches n none = false
grant_reaches n (some p) = leb n (rank_of p.permission)

-- The level is reached by a global role or by the grant for the domain.
abbrev pub is_allowed : ℕ → ℕ → ℕ → AccessTables → Bool
is_allowed n domain user t =
    any (role_reaches n) (role_names user t)
    || grant_reaches n (first (grants domain user) t.permissions)

abbrev combined : String → Option DomainPermission → String
combined best none = best
combined best (some p) = better best p.permission

combined-reaches :
    (n : ℕ) (best : String) (o : Option DomainPermission)
    → leb n (rank_of (combined best o)) ≡ (leb n (rank_of best) || grant_reaches n o)
combined-reaches n best none = ground arith
combined-reaches n best (some p) = better-reaches n best p.permission

grant-Runs :
    (best : String) (o : Option DomainPermission) (s : AccessTables)
    → Runs
        (branch (or_not_found o) (unless_absent best) (λ p. pure (better best p.permission)))
        s
        (combined best o)
        s
grant-Runs best none s = Runs-pure best s
grant-Runs best (some p) s = Runs-pure (better best p.permission) s

abbrev effective : ℕ → ℕ → AccessTables → String
effective domain user t =
    combined (best_of_roles "" (role_names user t)) (first (grants domain user) t.permissions)

effective_permission-Runs :
    (domain user : ℕ) (s : AccessTables)
    → Runs (effective_permission domain user) s (effective domain user s) s
unfolding effective_permission get_user_roles find_permission
effective_permission-Runs domain user s =
    Runs-bind _ _ s s s (role_names user s) _ (Runs-reads call_failed _ s (role_names user s) refl)
      (Runs-handle-reads call_failed _ _ _ s s _ _ refl (
        grant-Runs (best_of_roles "" (role_names user s)) (first (grants domain user) s.permissions)
          s))

no_rank : rank_of "" ≡ 0
unfolding permission_rank
no_rank = refl

effective-reaches :
    (n domain user : ℕ) (t : AccessTables)
    → 1 ≤ n
    → leb n (rank_of (effective domain user t)) ≡ is_allowed n domain user t
effective-reaches n domain user t h =
    let rs = role_names user t in
    let o = first (grants domain user) t.permissions in
    ground
      (arith, combined-reaches n (best_of_roles "" rs) o, best_of_roles-reaches n "" rs, no_rank)

pub has_permission-Runs :
    (domain user : ℕ) (min_level : String) (s : AccessTables)
    → 1 ≤ rank_of min_level
    → Runs (has_permission domain user min_level) s (is_allowed (rank_of min_level) domain user s) s
unfolding has_permission
has_permission-Runs domain user min_level s h =
    Runs-bind _ _ s s s (effective domain user s) _ (effective_permission-Runs domain user s) (
      subst
        (λ b.
          Runs {E = AccessError}
            (pure (leb (rank_of min_level) (rank_of (effective domain user s)))) s b s)
        (effective-reaches (rank_of min_level) domain user s h) (Runs-pure _ s))

-- When no call fails, a user is admitted to a domain at a known level exactly if one of the user's
-- global roles maps to that level or a higher one, or the user's grant for the domain is at that
-- level or a higher one; any other user is refused with the code 40300. Nothing is written.
pub require_dns_permission-Admits :
    (domain user : ℕ) (min_level : String) (d : Session AccessTables)
    → 1 ≤ rank_of min_level
    → 1 ≤ user
    → ((n : ℕ) → d.faults n ≡ false)
    → Ran
        (require_dns_permission user (some domain) min_level d)
        (if is_allowed (rank_of min_level) domain user d.tables then admitted else refused 40300)
        d.tables
unfolding require_dns_permission on_option
require_dns_permission-Admits domain user min_level d h k q =
    let s = d.tables in
    (Runs-else (user == 0) _ _ s _ s (ground (arith, k)) (
        Runs-handle _ _ _ s s s (is_allowed (rank_of min_level) domain user s) _
          (has_permission-Runs domain user min_level s h) (Runs-pure _ s))).at
      d refl q
