-- ===== src/Base/Ends.antt =====
-- What holds of the tables after an action, when no call fails: the action returns, and `Q` holds.
use Prim.Native.Nat.{ℕ}
use mathlib.Core.Path.{◌≡◌, refl, sym, subst}
use mathlib.Core.Bool.{Bool, true, false}
use native.Mathlib.Omega.{arith}
use mathlib.Core.List.{List, [], ◌∷◌}
use domain_lifecycle_deploym.Base.Tests.{if◌then◌else◌}
use domain_lifecycle_deploym.Base.Exec.{
  Res, ok, err, Session, Exec, pure, ignore, ◌>>=◌, continue, branch, handle, for_each,
}
use domain_lifecycle_deploym.Base.Runs.{Runs}

pub record Ended {ℓ} {E S A : Type ℓ} (o : Res E A × Session S) (Q : S → Type ℓ) : Type ℓ where
  pub value : A
  pub result : o.0 ≡ ok value
  pub holds : Q o.1.tables
  pub no_faults : (n : ℕ) → o.1.faults n ≡ false

pub record Ends {ℓ} {E S A : Type ℓ} (m : Exec E S A) (P Q : S → Type ℓ) : Type ℓ where
  pub at : (d : Session S) → P d.tables → ((n : ℕ) → d.faults n ≡ false) → Ended (m d) Q

module _ {ℓ} {E S A : Type ℓ} {P Q : S → Type ℓ} where
  -- An action that runs from each state of `P` to one of `Q`.
  pub Ends-Runs :
      (m : Exec E S A) → ((s : S) → P s → (a : A) × (t : S) × Runs m s a t × Q t) → Ends m P Q
  Ends-Runs m h = record {
    at = λ d p q.
        let (a, t, r, z) = h d.tables p in
        let o = r.at d refl q in
        record {
          value = a;
          result = o.result;
          holds = subst Q (sym o.tables) z;
          no_faults = o.no_faults;
        };
  }

  pub Ends-if :
      (b : Bool) (m n : Exec E S A)
      → (b ≡ true → Ends m P Q)
      → (b ≡ false → Ends n P Q)
      → Ends (if b then m else n) P Q
  Ends-if true m n h k = h refl
  Ends-if false m n h k = k refl

  pub Ends-then :
      (b : Bool) (m n : Exec E S A) → b ≡ true → Ends m P Q → Ends (if b then m else n) P Q
  Ends-then true m n h k = k
  Ends-then false m n h k = absurd (ground arith)

  pub Ends-else :
      (b : Bool) (m n : Exec E S A) → b ≡ false → Ends n P Q → Ends (if b then m else n) P Q
  Ends-else true m n h k = absurd (ground arith)
  Ends-else false m n h k = k

  pub Ends-ignore : (m : Exec E S A) → Ends m P Q → Ends (ignore m) P Q
  unfolding ignore
  Ends-ignore m h = record {
    at = λ d p q.
        let o = h.at d p q in
        record { value = tt; result = refl; holds = o.holds; no_faults = o.no_faults };
  }

module _ {ℓ} {E S A : Type ℓ} {P : S → Type ℓ} where
  pub Ends-pure : (a : A) → Ends {E = E} (pure a) P P
  unfolding pure
  Ends-pure a = record {
    at = λ d p q. record { value = a; result = refl; holds = p; no_faults = q };
  }

module _ {ℓ} {E S A : Type ℓ} {Q : S → Type ℓ} where
  -- An exact run from one state.
  pub Ends-at : {m : Exec E S A} {s t : S} {a : A} → Runs m s a t → Q t → Ends m (λ u. u ≡ s) Q
  Ends-at {m = m} {s = s} {t = t} {a = a} h z =
      Ends-Runs _ (λ u e. (a, t, subst (λ v. Runs m v a t) (sym e) h, z))

module _ {ℓ} {E S A B : Type ℓ} {Q R : S → Type ℓ} where
  branch-Ended :
      (r : Res E A) (failed : E → Exec E S B) (done : A → Exec E S B) (d : Session S) (a : A)
      → r ≡ ok a
      → Q d.tables
      → ((n : ℕ) → d.faults n ≡ false)
      → ((a : A) → Ends (done a) Q R)
      → Ended (branch r failed done d) R
  branch-Ended (ok x) failed done d a h p q k = (k x).at d p q
  branch-Ended (err e) failed done d a h p q k = absurd (ground arith)

  continue-Ended :
      (r : Res E A) (f : A → Exec E S B) (d : Session S) (a : A)
      → r ≡ ok a
      → Q d.tables
      → ((n : ℕ) → d.faults n ≡ false)
      → ((a : A) → Ends (f a) Q R)
      → Ended (continue r f d) R
  continue-Ended (ok x) f d a h p q k = (k x).at d p q
  continue-Ended (err e) f d a h p q k = absurd (ground arith)

module _ {ℓ} {E S A B : Type ℓ} {P Q R : S → Type ℓ} where
  pub Ends-handle :
      (m : Exec E S A) (failed : E → Exec E S B) (done : A → Exec E S B)
      → Ends m P Q
      → ((a : A) → Ends (done a) Q R)
      → Ends (handle m failed done) P R
  unfolding handle
  Ends-handle m failed done h k = record {
    at = λ d p q.
        let o = h.at d p q in
        branch-Ended (m d).0 failed done (m d).1 o.value o.result o.holds o.no_faults k;
  }

  pub Ends-bind :
      (m : Exec E S A) (f : A → Exec E S B)
      → Ends m P Q
      → ((a : A) → Ends (f a) Q R)
      → Ends (m >>= f) P R
  unfolding ◌>>=◌
  Ends-bind m f h k = record {
    at = λ d p q.
        let o = h.at d p q in
        continue-Ended (m d).0 f (m d).1 o.value o.result o.holds o.no_faults k;
  }

module _ {ℓ} {E S A : Type ℓ} {P : S → Type ℓ} where
  pub Ends-for_each :
      (f : A → Exec E S (Unit {ℓ})) (xs : List A)
      → ((a : A) → Ends (f a) P P)
      → Ends (for_each f xs) P P
  unfolding for_each
  Ends-for_each f [] h = Ends-pure tt
  Ends-for_each f (x ∷ xs) h =
      Ends-bind (f x) (λ _. for_each f xs) (h x) (λ _. Ends-for_each f xs h)

module _ {ℓ} {E S A : Type ℓ} {P : S → Type ℓ} where
  -- What holds afterwards depends on the branch.
  pub Ends-choice :
      (Q : Bool → S → Type ℓ) (b : Bool) (m n : Exec E S A)
      → Ends m P (Q true)
      → Ends n P (Q false)
      → Ends (if b then m else n) P (Q b)
  Ends-choice Q true m n h k = h
  Ends-choice Q false m n h k = k

  pub Ends-weaken :
      {Q R : S → Type ℓ} (m : Exec E S A) → ((s : S) → P s → Q s) → Ends m Q R → Ends m P R
  Ends-weaken m h k = record { at = λ d p q. k.at d (h d.tables p) q }

  pub Ends-conclude :
      {Q R : S → Type ℓ} (m : Exec E S A) → ((s : S) → Q s → R s) → Ends m P Q → Ends m P R
  Ends-conclude m h k = record {
    at = λ d p q.
        let o = k.at d p q in
        record { value = o.value; result = o.result; holds = h _ o.holds; no_faults = o.no_faults };
  }

module _ {ℓ} {E S A B : Type ℓ} {Q : S → Type ℓ} where
  -- The rest of the block may use the value that the first action returns.
  pub Ends-after :
      (m : Exec E S A) (f : A → Exec E S B) (s t : S) (a : A)
      → Runs m s a t
      → Ends (f a) (λ u. u ≡ t) Q
      → Ends (m >>= f) (λ u. u ≡ s) Q
  unfolding ◌>>=◌
  Ends-after m f s t a h k = record {
    at = λ d p q.
        let o = h.at d p q in
        subst (λ z. Ended (continue z f (m d).1) Q) (sym o.result)
          (k.at (m d).1 o.tables o.no_faults);
  }

  pub Ends-handle_after :
      (m : Exec E S A) (failed : E → Exec E S B) (done : A → Exec E S B) (s t : S) (a : A)
      → Runs m s a t
      → Ends (done a) (λ u. u ≡ t) Q
      → Ends (handle m failed done) (λ u. u ≡ s) Q
  unfolding handle
  Ends-handle_after m failed done s t a h k = record {
    at = λ d p q.
        let o = h.at d p q in
        subst (λ z. Ended (branch z failed done (m d).1) Q) (sym o.result)
          (k.at (m d).1 o.tables o.no_faults);
  }
