-- ===== src/Base/Exec.antt =====
-- Service code over a database, in state-passing style. Each store call of the source is one query
-- that may fail (a lost connection, a refused statement): the session's `faults` decides which,
-- so a statement about every session is a statement about every pattern of failures.
use Prim.Native.Nat.{ℕ, suc}
use mathlib.Core.Bool.{Bool, true, false}
use mathlib.Core.Option.{Option, none, some}
use mathlib.Core.List.{List, [], ◌∷◌}

pub data Res {ℓ} (E A : Type ℓ) : Type ℓ where
  ok : A → Res E A
  err : E → Res E A

pub record Session {ℓ} (S : Type ℓ) : Type ℓ where
  pub tables : S
  pub faults : ℕ → Bool
  pub calls : ℕ

abbrev pub Exec {ℓ} : Type ℓ → Type ℓ → Type ℓ → Type ℓ
Exec E S A = Session S → Res E A × Session S

module _ {ℓ} {S : Type ℓ} where
  abbrev pub counted : Session S → Session S
  counted d = record d { calls = suc d.calls }

  abbrev pub with_tables : Session S → S → Session S
  with_tables d s = record d { tables = s }

module _ {ℓ} {E S A : Type ℓ} where
  unfoldable pub pure : A → Exec E S A
  pure a d = (ok a, d)

  unfoldable pub throw : E → Exec E S A
  throw e d = (err e, d)

  -- An error value that the code has already computed.
  unfoldable pub lift : Res E A → Exec E S A
  lift r d = (r, d)

  -- The next call fails with `e`, or the code goes on.
  abbrev pub or_fail : Bool → E → Exec E S A → Exec E S A
  or_fail true e m d = (err e, counted d)
  or_fail false e m d = m (counted d)

  -- One statement sent to the database: `e` is the error of the call when it fails.
  unfoldable pub query : E → (S → Res E A × S) → Exec E S A
  query e f d =
      or_fail (d.faults d.calls) e (λ d'. let (r, s) = f d'.tables in (r, with_tables d' s)) d

  -- A SELECT, whose rows the source turns into a value or an error.
  unfoldable pub reads : E → (S → Res E A) → Exec E S A
  unfolding query
  reads e f = query e (λ s. (f s, s))

  -- `Commit`, or the deferred `Rollback`: the tables are again those of the beginning.
  abbrev pub settle : S → E → Res E A → Exec E S A
  settle s e (err x) d = (err x, with_tables d s)
  settle s e (ok a) d =
      let d0 = with_tables d s in
      let committed = with_tables (counted d) d.tables in
      or_fail (d.faults d.calls) e (λ _. (ok a, committed)) d0

  -- `BeginTx`, the body, and the end of the transaction.
  unfoldable pub transaction : E → E → Exec E S A → Exec E S A
  transaction begun committed body d =
      or_fail (d.faults d.calls) begun
        (λ d0. let (r, d1) = body d0 in settle d0.tables committed r d1) d

  -- The caller looks at the error itself.
  unfoldable pub attempt : Exec E S A → Exec E S (Res E A)
  attempt m d = let (r, d') = m d in (ok r, d')

  -- The caller logs the error and goes on.
  unfoldable pub ignore : Exec E S A → Exec E S (Unit {ℓ})
  ignore m d = let (r, d') = m d in (ok tt, d')

module _ {ℓ} {E S : Type ℓ} where
  -- An UPDATE or an INSERT with nothing to return.
  unfoldable pub writes : E → (S → S) → Exec E S (Unit {ℓ})
  unfolding query
  writes e f = query e (λ s. (ok tt, f s))

module _ {ℓ} {E S A B : Type ℓ} where
  abbrev pub continue : Res E A → (A → Exec E S B) → Exec E S B
  continue (ok a) f d = f a d
  continue (err e) f d = (err e, d)

  infixl 5 ◌>>=◌ ◌>>◌
  unfoldable pub ◌>>=◌ : Exec E S A → (A → Exec E S B) → Exec E S B
  ◌>>=◌ m f d = let (r, d') = m d in continue r f d'

  abbrev pub ◌>>◌ : Exec E S A → Exec E S B → Exec E S B
  m >> n = m >>= λ _. n

module _ {ℓ} {E S A B : Type ℓ} where
  -- `if err != nil { … }` with both branches going on in their own way.
  abbrev pub branch : Res E A → (E → Exec E S B) → (A → Exec E S B) → Exec E S B
  branch (ok a) failed done d = done a d
  branch (err e) failed done d = failed e d

  unfoldable pub handle : Exec E S A → (E → Exec E S B) → (A → Exec E S B) → Exec E S B
  handle m failed done d = let (r, d') = m d in branch r failed done d'

  -- `if p == nil { … }`.
  unfoldable pub on_option : Option A → Exec E S B → (A → Exec E S B) → Exec E S B
  on_option none absent present = absent
  on_option (some a) absent present = present a

module _ {ℓ} {E S A : Type ℓ} where
  unfoldable pub for_each : (A → Exec E S (Unit {ℓ})) → List A → Exec E S (Unit {ℓ})
  for_each f [] = pure tt
  for_each f (a ∷ as') = f a >> for_each f as'
