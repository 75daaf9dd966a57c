-- ===== src/Base/Atomic.antt =====
-- A transaction is done as a whole or not at all.

use mathlib.Core.Path.{◌≡◌, refl}
use mathlib.Core.Logic.{◌⊎◌, inl, inr}
use mathlib.Core.Bool.{Bool, true, false}
use domain_lifecycle_deploym.Base.Exec.{
  Res, ok, err, Session, Exec, counted, transaction, settle, reads, query, ◌>>=◌,
}

module _ {ℓ} {E S A : Type ℓ} where
  -- The body returned and its tables stand.
  abbrev pub Committed : Res E A × Session S → Res E A × Session S → Type ℓ
  Committed body o = (a : A) × ((body.0 ≡ ok a) × ((o.0 ≡ ok a) × (o.1.tables ≡ body.1.tables)))

  abbrev pub Refused : S → Res E A × Session S → Type ℓ
  Refused s o = ((e : E) × (o.0 ≡ err e)) × (o.1.tables ≡ s)

  settle_cases :
      (s : S) (e : E) (r : Res E A) (d : Session S) (b : Bool)
      → d.faults d.calls ≡ b
      → Committed (r, d) (settle s e r d) ⊎ Refused s (settle s e r d)
  settle_cases s e (err x) d b h = inr ((x, refl), refl)
  settle_cases s e (ok a) d true h = inr ((e, rw h refl), rw h refl)
  settle_cases s e (ok a) d false h = inl (a, (refl, (rw h refl, rw h refl)))

  begun_cases :
      (c begun : E) (m : Exec E S A) (d : Session S) (b : Bool)
      → d.faults d.calls ≡ b
      → Committed (m (counted d)) (transaction begun c m d)
        ⊎ Refused d.tables (transaction begun c m d)
  unfolding transaction
  begun_cases c begun m d true h = inr ((begun, rw h refl), rw h refl)
  begun_cases c begun m d false h =
      rw h (settle_cases d.tables c (m (counted d)).0 (m (counted d)).1 _ refl)

  pub transaction_cases :
      (begun c : E) (m : Exec E S A) (d : Session S)
      → Committed (m (counted d)) (transaction begun c m d)
        ⊎ Refused d.tables (transaction begun c m d)
  transaction_cases begun c m d = begun_cases c begun m d _ refl

module _ {ℓ} {E S A B : Type ℓ} where
  kept_cases :
      (e : E) (f : S → Res E A) (k : A → Exec E S B) (d : Session S) (a : A) (b : Bool)
      → d.faults d.calls ≡ b
      → f d.tables ≡ ok a
      → (k a (counted d)).1.tables ≡ d.tables
      → ((reads e f >>= k) d).1.tables ≡ d.tables
  unfolding reads query ◌>>=◌
  kept_cases e f k d a true h r t = rw h refl
  kept_cases e f k d a false h r t = rw (h, r) t

  -- A read whose continuation changes nothing changes nothing, also where it fails.
  pub reads-kept :
      (e : E) (f : S → Res E A) (k : A → Exec E S B) (d : Session S) (a : A)
      → f d.tables ≡ ok a
      → (k a (counted d)).1.tables ≡ d.tables
      → ((reads e f >>= k) d).1.tables ≡ d.tables
  reads-kept e f k d a r t = kept_cases e f k d a _ refl r t
