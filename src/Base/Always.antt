-- ===== src/Base/Always.antt =====
-- What holds after an action whatever calls fail: `Q` of its value when it returns, `X` when it ends
-- with an error.

use mathlib.Core.Path.{◌≡◌, refl}
use mathlib.Core.Bool.{Bool, true, false}
use domain_lifecycle_deploym.Base.Tests.{if◌then◌else◌}
use domain_lifecycle_deploym.Base.Exec.{
  Res, ok, err, Session, Exec, pure, throw, query, reads, writes, or_fail, counted, ignore, ◌>>=◌,
  continue, branch, handle, transaction, settle, with_tables,
}

module _ {ℓ} {E S A : Type ℓ} where
  abbrev pub Post : (A → S → Type ℓ) → (S → Type ℓ) → Res E A → S → Type ℓ
  Post Q X (ok a) s = Q a s
  Post Q X (err e) s = X s

pub record Always {ℓ} {E S A : Type ℓ} (m : Exec E S A) (P : S → Type ℓ) (Q : A → S → Type ℓ)
    (X : S → Type ℓ) : Type ℓ where
  pub at : (d : Session S) → P d.tables → Post Q X (m d).0 (m d).1.tables

module _ {ℓ} {E S A : Type ℓ} where
  or_fail-Post :
      (Q : A → S → Type ℓ) (X : S → Type ℓ) (b : Bool) (e : E) (m : Exec E S A) (d : Session S)
      → X d.tables
      → Post Q X (m (counted d)).0 (m (counted d)).1.tables
      → Post Q X (or_fail b e m d).0 (or_fail b e m d).1.tables
  or_fail-Post Q X true e m d x q = x
  or_fail-Post Q X false e m d x q = q

  settle-Post :
      (Q : A → S → Type ℓ) (X Y : S → Type ℓ) (e : E) (r : Res E A) (s : S) (d : Session S)
      → X s
      → Post Q Y r d.tables
      → Post Q X (settle s e r d).0 (settle s e r d).1.tables
  settle-Post Q X Y e (err y) s d x q = x
  settle-Post Q X Y e (ok a) s d x q = or_fail-Post Q X (d.faults d.calls) e _ (with_tables d s) x q

  pub Post-if :
      (Q : A → S → Type ℓ) (X : S → Type ℓ) (b : Bool) (x y : Res E A × S)
      → (b ≡ true → Post Q X x.0 x.1)
      → (b ≡ false → Post Q X y.0 y.1)
      → Post Q X (if b then x else y).0 (if b then x else y).1
  Post-if Q X true x y h k = h refl
  Post-if Q X false x y h k = k refl

  weaken-Post :
      (Q R : A → S → Type ℓ) (X : S → Type ℓ) (r : Res E A) (s : S)
      → ((a : A) (t : S) → Q a t → R a t)
      → Post Q X r s
      → Post R X r s
  weaken-Post Q R X (ok a) s h p = h a s p
  weaken-Post Q R X (err e) s h p = p

  forget-Post : (Q : S → Type ℓ) (r : Res E A) (s : S) → Post (λ _. Q) Q r s → Q s
  forget-Post Q (ok a) s p = p
  forget-Post Q (err e) s p = p

module _ {ℓ} {E S A B : Type ℓ} where
  continue-Post :
      (R : A → S → Type ℓ) (Q : B → S → Type ℓ) (X : S → Type ℓ) (r : Res E A) (f : A → Exec E S B)
      (d : Session S)
      → Post R X r d.tables
      → ((a : A) → Always (f a) (R a) Q X)
      → Post Q X (continue r f d).0 (continue r f d).1.tables
  continue-Post R Q X (ok a) f d p h = (h a).at d p
  continue-Post R Q X (err e) f d p h = p

  branch-Post :
      (R : A → S → Type ℓ) (Y : S → Type ℓ) (Q : B → S → Type ℓ) (X : S → Type ℓ) (r : Res E A)
      (failed : E → Exec E S B) (done : A → Exec E S B) (d : Session S)
      → Post R Y r d.tables
      → ((e : E) → Always (failed e) Y Q X)
      → ((a : A) → Always (done a) (R a) Q X)
      → Post Q X (branch r failed done d).0 (branch r failed done d).1.tables
  branch-Post R Y Q X (ok a) failed done d p h k = (k a).at d p
  branch-Post R Y Q X (err e) failed done d p h k = (h e).at d p

module _ {ℓ} {E S A : Type ℓ} {P : S → Type ℓ} {Q : A → S → Type ℓ} {X : S → Type ℓ} where
  pub Always-pure : (a : A) → ((s : S) → P s → Q a s) → Always {E = E} (pure a) P Q X
  unfolding pure
  Always-pure a h = record { at = λ d p. h d.tables p }

  pub Always-throw : (e : E) → ((s : S) → P s → X s) → Always (throw e) P Q X
  unfolding throw
  Always-throw e h = record { at = λ d p. h d.tables p }

  pub Always-query :
      (e : E) (f : S → Res E A × S)
      → ((s : S) → P s → X s)
      → ((s : S) → P s → Post Q X (f s).0 (f s).1)
      → Always (query e f) P Q X
  unfolding query
  Always-query e f x q = record {
    at = λ d p. or_fail-Post Q X (d.faults d.calls) e _ d (x d.tables p) (q d.tables p);
  }

  pub Always-reads :
      (e : E) (f : S → Res E A)
      → ((s : S) → P s → X s)
      → ((s : S) → P s → Post Q X (f s) s)
      → Always (reads e f) P Q X
  unfolding reads
  Always-reads e f x q = Always-query e (λ s. (f s, s)) x q

  -- An error of the body undoes what the body wrote.
  pub Always-transaction :
      {Y : S → Type ℓ} (begun committed : E) (m : Exec E S A)
      → ((s : S) → P s → X s)
      → Always m P Q Y
      → Always (transaction begun committed m) P Q X
  unfolding transaction
  Always-transaction {Y = Y} begun committed m x h = record {
    at = λ d p. or_fail-Post Q X (d.faults d.calls) begun _ d (x d.tables p) (
        settle-Post Q X Y committed (m (counted d)).0 d.tables (m (counted d)).1 (x d.tables p)
          (h.at (counted d) p));
  }

  pub Always-if :
      (b : Bool) (m n : Exec E S A)
      → (b ≡ true → Always m P Q X)
      → (b ≡ false → Always n P Q X)
      → Always (if b then m else n) P Q X
  Always-if true m n h k = h refl
  Always-if false m n h k = k refl

  pub Always-conclude :
      {R : A → S → Type ℓ} (m : Exec E S A)
      → ((a : A) (s : S) → Q a s → R a s)
      → Always m P Q X
      → Always m P R X
  Always-conclude {R = R} m h k = record {
    at = λ d p. weaken-Post Q R X (m d).0 (m d).1.tables h (k.at d p);
  }

  -- A fact about values that the precondition holds.
  pub Always-given :
      {K : Type ℓ} (m : Exec E S A) → (K → Always m P Q X) → Always m (λ s. P s × K) Q X
  Always-given m h = record { at = λ d p. (h p.1).at d p.0 }

  pub Always-before :
      {R : S → Type ℓ} (m : Exec E S A) → ((s : S) → R s → P s) → Always m P Q X → Always m R Q X
  Always-before m h k = record { at = λ d p. k.at d (h d.tables p) }

module _ {ℓ} {E S : Type ℓ} {P X : S → Type ℓ} {Q : S → Type ℓ} where
  pub Always-writes :
      (e : E) (f : S → S)
      → ((s : S) → P s → X s)
      → ((s : S) → P s → Q (f s))
      → Always (writes e f) P (λ _. Q) X
  unfolding writes
  Always-writes e f x q = Always-query e (λ s. (ok tt, f s)) x q

module _ {ℓ} {E S A B : Type ℓ} {P X : S → Type ℓ} {R : A → S → Type ℓ} {Q : B → S → Type ℓ} where
  pub Always-bind :
      (m : Exec E S A) (f : A → Exec E S B)
      → Always m P R X
      → ((a : A) → Always (f a) (R a) Q X)
      → Always (m >>= f) P Q X
  unfolding ◌>>=◌
  Always-bind m f h k = record { at = λ d p. continue-Post R Q X (m d).0 f (m d).1 (h.at d p) k }

  pub Always-handle :
      {Y : S → Type ℓ} (m : Exec E S A) (failed : E → Exec E S B) (done : A → Exec E S B)
      → Always m P R Y
      → ((e : E) → Always (failed e) Y Q X)
      → ((a : A) → Always (done a) (R a) Q X)
      → Always (handle m failed done) P Q X
  unfolding handle
  Always-handle {Y = Y} m failed done g h k = record {
    at = λ d p. branch-Post R Y Q X (m d).0 failed done (m d).1 (g.at d p) h k;
  }

module _ {ℓ} {E S A : Type ℓ} {P X Q : S → Type ℓ} where
  pub Always-ignore : (m : Exec E S A) → Always m P (λ _. Q) Q → Always (ignore m) P (λ _. Q) X
  unfolding ignore
  Always-ignore m h = record { at = λ d p. forget-Post Q (m d).0 (m d).1.tables (h.at d p) }

module _ {ℓ} {E S A : Type ℓ} {P Q : S → Type ℓ} where
  -- What holds whether the action returns or not.
  pub Always-end :
      (m : Exec E S A) (d : Session S) → P d.tables → Always m P (λ _. Q) Q → Q (m d).1.tables
  Always-end m d p h = forget-Post Q (m d).0 (m d).1.tables (h.at d p)
