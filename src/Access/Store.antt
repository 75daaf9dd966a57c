-- ===== src/Access/Store.antt =====
-- store/postgres/domain_permission.go and role.go.
use domain_lifecycle_deploym.Base.{
  ℕ, suc, String, str_eq, Bool, not, ◌&&◌, Option, none, some, List, [], ◌∷◌, ◌++◌, ◌==◌, ltb,
  if◌then◌else◌, any, first, select, update_where, count_where, map,
}
use domain_lifecycle_deploym.Base.Exec.{Res, ok, err, Exec, query, reads, writes}

pub record DomainPermission : Type 0 where
  pub id : ℕ
  pub domain_id : ℕ
  pub user_id : ℕ
  pub permission : String
  pub granted_by : Option ℕ
  pub granted_at : ℕ

pub record Role : Type 0 where
  pub id : ℕ
  pub name : String

pub record UserRole : Type 0 where
  pub user_id : ℕ
  pub role_id : ℕ
  pub granted_by : Option ℕ

pub record AccessTables : Type 0 where
  pub now : ℕ
  pub next_id : ℕ
  pub permissions : List DomainPermission
  pub roles : List Role
  pub user_roles : List UserRole

pub data AccessError : Type 0 where
  call_failed invalid_level permission_not_found : AccessError

abbrev pub AccessDb : Type 0 → Type 0
AccessDb A = Exec AccessError AccessTables A

-- `domain_id = $1 AND user_id = $2`.
abbrev pub grants : ℕ → ℕ → DomainPermission → Bool
grants domain user p = p.domain_id == domain && p.user_id == user

abbrev pub new_grant : ℕ → ℕ → String → ℕ → AccessTables → DomainPermission
new_grant domain user level by t = record {
  id = t.next_id;
  domain_id = domain;
  user_id = user;
  permission = level;
  granted_by = some by;
  granted_at = t.now;
}

-- INSERT … ON CONFLICT (domain_id, user_id) DO UPDATE.
abbrev pub upserted : ℕ → ℕ → String → ℕ → AccessTables → AccessTables
upserted domain user level by t =
    if any (grants domain user) t.permissions
    then record t {
      permissions =
          update_where (grants domain user)
            (λ p. record p { permission = level; granted_by = some by; granted_at = t.now })
            t.permissions;
    }
    else record t {
      next_id = suc t.next_id;
      permissions = t.permissions ++ new_grant domain user level by t ∷ [];
    }

unfoldable pub upsert_permission : ℕ → ℕ → String → ℕ → AccessDb Unit
unfolding writes
upsert_permission domain user level by = writes call_failed (upserted domain user level by)

abbrev pub deleted : ℕ → ℕ → AccessTables → AccessTables
deleted domain user t = record t {
  permissions = select (λ p. not (grants domain user p)) t.permissions;
}

-- A DELETE that touches no row is an error.
unfoldable pub delete_permission : ℕ → ℕ → AccessDb Unit
unfolding query any
delete_permission domain user = query call_failed (λ t.
    if any (grants domain user) t.permissions
    then (ok tt, deleted domain user t)
    else (err permission_not_found, t))

abbrev pub or_not_found : Option DomainPermission → Res AccessError DomainPermission
or_not_found none = err permission_not_found
or_not_found (some p) = ok p

unfoldable pub find_permission : ℕ → ℕ → AccessDb DomainPermission
unfolding reads first
find_permission domain user =
    reads call_failed (λ t. or_not_found (first (grants domain user) t.permissions))

-- The rows of `roles` that a row of `user_roles` joins to the user.
abbrev pub held_by : ℕ → AccessTables → Role → Bool
held_by user t r = any (λ u. u.role_id == r.id && u.user_id == user) t.user_roles

abbrev pub role_names : ℕ → AccessTables → List String
role_names user t = map (λ r. r.name) (select (held_by user t) t.roles)

unfoldable pub get_user_roles : ℕ → AccessDb (List String)
unfolding reads select any
get_user_roles user = reads call_failed (λ t. ok (role_names user t))

unfoldable pub has_role : ℕ → String → AccessDb Bool
unfolding reads count_where any
has_role user role =
    reads call_failed
      (λ t. ok (ltb 0 (count_where (λ r. held_by user t r && str_eq r.name role) t.roles)))

-- ON CONFLICT DO NOTHING, for each role with the name.
abbrev pub add_role : ℕ → Option ℕ → Role → List UserRole → List UserRole
add_role user by r us =
    if any (λ u. u.user_id == user && u.role_id == r.id) us
    then us
    else us ++ record { user_id = user; role_id = r.id; granted_by = by } ∷ []

abbrev pub add_roles : ℕ → Option ℕ → List Role → List UserRole → List UserRole
add_roles user by [] us = us
add_roles user by (r ∷ rs) us = add_roles user by rs (add_role user by r us)

unfoldable pub grant_role : ℕ → String → Option ℕ → AccessDb Unit
unfolding writes select any
grant_role user role by = writes call_failed (λ t. record t {
  user_roles = add_roles user by (select (λ r. str_eq r.name role) t.roles) t.user_roles;
})

unfoldable pub revoke_role : ℕ → String → AccessDb Unit
unfolding writes select any
revoke_role user role = writes call_failed (λ t. record t {
  user_roles =
      select
        (λ u. not (u.user_id == user && any (λ r. r.id == u.role_id && str_eq r.name role) t.roles))
        t.user_roles;
})
