-- ===== src/Access/Service.antt =====
-- internal/domain/permission.go: the service, and the middleware that asks it.
use domain_lifecycle_deploym.Base.{ℕ, String, Bool, Option, ◌==◌, leb, if◌then◌else◌}
use domain_lifecycle_deploym.Base.Exec.{pure, throw, handle, on_option, ◌>>=◌}
use domain_lifecycle_deploym.Access.Levels.{permission_rank, rank_of, better, best_of_roles}
use domain_lifecycle_deploym.Access.Store.{
  DomainPermission, AccessError, call_failed, invalid_level, permission_not_found, AccessDb,
  upsert_permission, delete_permission, find_permission, get_user_roles,
}

unfoldable pub grant_permission : ℕ → ℕ → String → ℕ → AccessDb Unit
unfolding on_option permission_rank throw upsert_permission
grant_permission domain user level by =
    on_option (permission_rank level) (throw invalid_level)
      (λ rank. upsert_permission domain user level by)

unfoldable pub revoke_permission : ℕ → ℕ → AccessDb Unit
unfolding delete_permission
revoke_permission domain user = delete_permission domain user

unfoldable pub get_permission : ℕ → ℕ → AccessDb DomainPermission
unfolding find_permission
get_permission domain user = find_permission domain user

-- Only the absence of a grant is no error.
abbrev pub unless_absent : String → AccessError → AccessDb String
unless_absent best call_failed = throw call_failed
unless_absent best invalid_level = throw invalid_level
unless_absent best permission_not_found = pure best

unfoldable pub effective_permission : ℕ → ℕ → AccessDb String
unfolding get_user_roles find_permission handle ◌>>=◌ pure throw best_of_roles better
effective_permission domain user = do
  roles ← get_user_roles user
  let best = best_of_roles "" roles
  handle (find_permission domain user) (unless_absent best) (λ p. pure (better best p.permission))

unfoldable pub has_permission : ℕ → ℕ → String → AccessDb Bool
unfolding effective_permission permission_rank ◌>>=◌ pure
has_permission domain user min_level = do
  level ← effective_permission domain user
  pure (leb (rank_of min_level) (rank_of level))

-- What the middleware does: the next handler, or an answer with a code.
pub data Admission : Type 0 where
  admitted : Admission
  refused : ℕ → Admission

-- `id` is the path parameter, where it is a number; the user 0 is nobody.
unfoldable pub require_dns_permission : ℕ → Option ℕ → String → AccessDb Admission
unfolding has_permission handle pure on_option
require_dns_permission user id min_level =
    if user == 0
    then pure (refused 40100)
    else on_option id (pure (refused 40000)) (λ domain.
      handle (has_permission domain user min_level) (λ _. pure (refused 50000))
        (λ allowed. pure (if allowed then admitted else refused 40300)))
