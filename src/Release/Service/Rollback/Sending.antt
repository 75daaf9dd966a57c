-- ===== src/Release/Service/Rollback/Sending.antt =====
-- internal/release/rollback.go: the tasks that a run of ExecuteRollback leaves.
use domain_lifecycle_deploym.Base.{Bool, true, List, any}
use domain_lifecycle_deploym.Base.Exec.{◌>>◌}
use domain_lifecycle_deploym.Base.Ends.{Ends}
use domain_lifecycle_deploym.Release.Tables.{Release, Tables}

-- Some row of the list.
abbrev pub is_any {ℓ} : {A : Type ℓ} → List A → Bool
is_any xs = any (λ x. true) xs
