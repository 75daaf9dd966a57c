-- ===== src/Access/Levels.antt =====
-- internal/domain/permission.go: the levels, their order, and the level of a global role.
use domain_lifecycle_deploym.Base.{
  ℕ, String, str_eq, Option, none, some, List, [], ◌∷◌, ltb, if◌then◌else◌,
}

-- The map permissionRank; a key that is not in it is `none`.
unfoldable pub permission_rank : String → Option ℕ
permission_rank p =
    if str_eq p "viewer"
    then some 1
    else if str_eq p "editor"
    then some 2
    else if str_eq p "admin"
    then some 3
    else none

abbrev or_zero : Option ℕ → ℕ
or_zero none = 0
or_zero (some n) = n

-- What a read of the map gives.
abbrev pub rank_of : String → ℕ
rank_of p = or_zero (permission_rank p)

unfoldable pub global_role_to_permission : String → Option String
global_role_to_permission r =
    if str_eq r "admin"
    then some "admin"
    else if str_eq r "release_manager"
    then some "admin"
    else if str_eq r "operator"
    then some "editor"
    else if str_eq r "viewer"
    then some "viewer"
    else if str_eq r "auditor"
    then some "viewer"
    else none

-- The better of the best level so far and another.
unfoldable pub better : String → String → String
unfolding permission_rank
better best p = if ltb (rank_of best) (rank_of p) then p else best

abbrev pub better_or_same : String → Option String → String
better_or_same best none = best
better_or_same best (some p) = better best p

-- The loop over the global roles.
unfoldable pub best_of_roles : String → List String → String
unfolding better global_role_to_permission
best_of_roles best [] = best
best_of_roles best (r ∷ rs) = best_of_roles (better_or_same best (global_role_to_permission r)) rs
