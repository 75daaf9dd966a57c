-- ===== src/Access/Grants.antt =====
-- internal/domain/permission.go: granting and revoking, seen as changes of a map from domains and
-- users to levels.
use domain_lifecycle_deploym.Base.{
  ℕ, String, Bool, true, false, not, ◌&&◌, Option, none, some, List, [], ◌∷◌, ◌++◌, ◌≡◌, refl,
  arith, ◌==◌, any, first, select, update_where, if◌then◌else◌, Bool-cases, inl, inr, ==_refl, ◌∙◌,
}
use domain_lifecycle_deploym.Base.Exec.{Session, on_option, ◌>>◌}
use domain_lifecycle_deploym.Base.Runs.{Runs, Runs-writes, Runs-query, Runs-bind}
use domain_lifecycle_deploym.Base.Ends.{Ended, Ends-at}
use domain_lifecycle_deploym.Access.Levels.{permission_rank}
use domain_lifecycle_deploym.Access.Store.{
  DomainPermission, AccessTables, call_failed, grants, new_grant, upserted, deleted,
  upsert_permission, delete_permission,
}
use domain_lifecycle_deploym.Access.Service.{grant_permission, revoke_permission}

abbrev level_of : Option DomainPermission → Option String
level_of none = none
level_of (some p) = some p.permission

-- The abstract view of the table.
abbrev pub level_in : ℕ → ℕ → List DomainPermission → Option String
level_in domain user ps = level_of (first (grants domain user) ps)

abbrev pub level_at : ℕ → ℕ → AccessTables → Option String
level_at domain user t = level_in domain user t.permissions

abbrev pub is_same : ℕ → ℕ → ℕ → ℕ → Bool
is_same domain user i j = i == domain && j == user

module _ (domain user : ℕ) (level : String) (by now : ℕ) where
  abbrev regranted : DomainPermission → DomainPermission
  regranted p = record p { permission = level; granted_by = some by; granted_at = now }

  level_in-update :
      (i j : ℕ) (ps : List DomainPermission)
      → level_in i j (update_where (grants domain user) regranted ps) ≡ (
          if is_same domain user i j && any (grants domain user) ps
          then some level
          else level_in i j ps)
  unfolding first update_where any
  level_in-update i j [] = ground arith
  level_in-update i j (p ∷ ps) = ground (arith, level_in-update i j ps)

level_in-append :
    (domain user : ℕ) (g : DomainPermission) (i j : ℕ) (ps : List DomainPermission)
    → g.domain_id ≡ domain
    → g.user_id ≡ user
    → any (grants domain user) ps ≡ false
    → level_in i j (ps ++ g ∷ [])
      ≡ (if is_same domain user i j then some g.permission else level_in i j ps)
unfolding first any
level_in-append domain user g i j [] a b h = ground arith
level_in-append domain user g i j (p ∷ ps) a b h =
    ground (arith, level_in-append domain user g i j ps a b)

level_in-select :
    (domain user i j : ℕ) (ps : List DomainPermission)
    → level_in i j (select (λ p. not (grants domain user p)) ps)
      ≡ (if is_same domain user i j then none else level_in i j ps)
unfolding first select
level_in-select domain user i j [] = ground arith
level_in-select domain user i j (p ∷ ps) = ground (arith, level_in-select domain user i j ps)

level_at-upserted :
    (domain user i j : ℕ) (level : String) (by : ℕ) (t : AccessTables)
    → level_at i j (upserted domain user level by t)
      ≡ (if is_same domain user i j then some level else level_at i j t)
level_at-upserted domain user i j level by t =
    elim (Bool-cases (any (grants domain user) t.permissions)) [
      | inl old ↦
          rw old (ground (arith, level_in-update domain user level by t.now i j t.permissions, old))
      | inr new ↦ rw new (
          level_in-append domain user (new_grant domain user level by t) i j t.permissions refl refl
            new)
    ]

level_in-any :
    (domain user : ℕ) (level : String) (ps : List DomainPermission)
    → level_in domain user ps ≡ some level
    → any (grants domain user) ps ≡ true
unfolding first any
level_in-any domain user level [] h = absurd (ground arith)
level_in-any domain user level (p ∷ ps) h = ground (arith, level_in-any domain user level ps)

level_at-granted :
    (domain user : ℕ) (level : String) (by : ℕ) (t : AccessTables)
    → level_at domain user (upserted domain user level by t) ≡ some level
level_at-granted domain user level by t =
    level_at-upserted domain user domain user level by t
    ∙ ground (arith, ==_refl domain, ==_refl user)

grant_permission-Runs :
    (domain user : ℕ) (level : String) (by n : ℕ) (s : AccessTables)
    → permission_rank level ≡ some n
    → Runs (grant_permission domain user level by) s tt (upserted domain user level by s)
unfolding grant_permission upsert_permission on_option
grant_permission-Runs domain user level by n s h =
    rw h (Runs-writes call_failed (upserted domain user level by) s)

revoke_permission-Runs :
    (domain user : ℕ) (s : AccessTables)
    → any (grants domain user) s.permissions ≡ true
    → Runs (revoke_permission domain user) s tt (deleted domain user s)
unfolding revoke_permission delete_permission
revoke_permission-Runs domain user s h = Runs-query call_failed _ s tt _ (rw h refl)

level_at-revoked :
    (domain user i j : ℕ) (level : String) (by : ℕ) (t : AccessTables)
    → level_at i j (deleted domain user (upserted domain user level by t))
      ≡ (if is_same domain user i j then none else level_at i j t)
level_at-revoked domain user i j level by t =
    let u = upserted domain user level by t in
    ground (
      arith,
      level_in-select domain user i j u.permissions,
      level_at-upserted domain user i j level by t,
    )

-- When no call fails, granting a known level returns and sets the level of this user on this domain;
-- revoking it then returns and takes the level away; neither changes the level of another user or
-- another domain.
pub grant_permission-Granted :
    (domain user i j : ℕ) (level : String) (by n : ℕ) (d : Session AccessTables)
    → permission_rank level ≡ some n
    → ((k : ℕ) → d.faults k ≡ false)
    → Ended (grant_permission domain user level by d) (λ t.
      level_at i j t ≡ (if is_same domain user i j then some level else level_at i j d.tables))
      × Ended
          ((grant_permission domain user level by >> revoke_permission domain user) d)
          (λ t. level_at i j t ≡ (if is_same domain user i j then none else level_at i j d.tables))
grant_permission-Granted domain user i j level by n d h q =
    let s = d.tables in
    let t = upserted domain user level by s in
    let grant = grant_permission-Runs domain user level by n s h in
    let there =
      level_in-any domain user level t.permissions (level_at-granted domain user level by s) in
    (
      (Ends-at grant (level_at-upserted domain user i j level by s)).at d refl q,
      (Ends-at
            (Runs-bind _ _ s t (deleted domain user t) tt tt grant
              (revoke_permission-Runs domain user t there))
            (level_at-revoked domain user i j level by s)).at
          d refl q,
    )
