-- ===== src/Base/Runs.antt =====
-- What an action returns and leaves behind when no call fails.
use Prim.Native.Nat.{ℕ}
use mathlib.Core.Path.{◌≡◌, refl, sym, ap, subst, ◌∙◌}
use mathlib.Core.Bool.{Bool, true, false}
use native.Mathlib.Omega.{arith}
use domain_lifecycle_deploym.Base.Tests.{if◌then◌else◌}
use domain_lifecycle_deploym.Base.Exec.{
  Res, ok, err, Session, Exec, counted, with_tables, pure, query, reads, writes, transaction,
  settle, or_fail, ignore, ◌>>=◌, continue, branch, handle,
}

pub record Ran {ℓ} {E S A : Type ℓ} (o : Res E A × Session S) (a : A) (t : S) : Type ℓ where
  pub result : o.0 ≡ ok a
  pub tables : o.1.tables ≡ t
  pub no_faults : (n : ℕ) → o.1.faults n ≡ false

-- From tables `s`, with no call failing, `m` returns `a` and leaves the tables `t`.
pub record Runs {ℓ} {E S A : Type ℓ} (m : Exec E S A) (s : S) (a : A) (t : S) : Type ℓ where
  pub at : (d : Session S) → d.tables ≡ s → ((n : ℕ) → d.faults n ≡ false) → Ran (m d) a t

module _ {ℓ} {E S A : Type ℓ} where
  pub Runs-pure : (a : A) (s : S) → Runs {E = E} (pure a) s a s
  unfolding pure
  Runs-pure a s = record { at = λ d h q. record { result = refl; tables = h; no_faults = q } }

  or_fail-Ran :
      (b : Bool) (e : E) (m : Exec E S A) (d : Session S) (a : A) (t : S)
      → b ≡ false
      → Ran (m (counted d)) a t
      → Ran (or_fail b e m d) a t
  or_fail-Ran true e m d a t h r = absurd (ground arith)
  or_fail-Ran false e m d a t h r = r

  pub Runs-query :
      (e : E) (f : S → Res E A × S) (s : S) (a : A) (t : S)
      → f s ≡ (ok a, t)
      → Runs (query e f) s a t
  unfolding query
  Runs-query e f s a t h = record {
    at = λ d p q.
        or_fail-Ran (d.faults d.calls) e _ d a t (q d.calls)
          (record { result = rw (p, h) refl; tables = rw (p, h) refl; no_faults = q });
  }

  pub Runs-reads : (e : E) (f : S → Res E A) (s : S) (a : A) → f s ≡ ok a → Runs (reads e f) s a s
  unfolding reads
  Runs-reads e f s a h = Runs-query e (λ t. (f t, t)) s a s (rw h refl)

  settle-Ran :
      (s : S) (e : E) (r : Res E A) (d : Session S) (a : A) (t : S)
      → r ≡ ok a
      → d.tables ≡ t
      → ((n : ℕ) → d.faults n ≡ false)
      → Ran (settle s e r d) a t
  settle-Ran s e (err x) d a t r p q = absurd (ground arith)
  settle-Ran s e (ok b) d a t r p q =
      or_fail-Ran (d.faults d.calls) e _ (with_tables d s) a t (q d.calls)
        (record { result = r; tables = p; no_faults = q })

  pub Runs-transaction :
      (e c : E) (m : Exec E S A) (s : S) (a : A) (t : S)
      → Runs m s a t
      → Runs (transaction e c m) s a t
  unfolding transaction
  Runs-transaction e c m s a t h = record {
    at = λ d p q.
        let r = h.at (counted d) p q in
        or_fail-Ran (d.faults d.calls) e _ d a t (q d.calls)
          (settle-Ran _ c _ (m (counted d)).1 a t r.result r.tables r.no_faults);
  }

  pub Runs-ignore : (m : Exec E S A) (s : S) (a : A) (t : S) → Runs m s a t → Runs (ignore m) s tt t
  unfolding ignore
  Runs-ignore m s a t h = record {
    at = λ d p q.
        let r = h.at d p q in record { result = refl; tables = r.tables; no_faults = r.no_faults };
  }

  pub Runs-then :
      (b : Bool) (m n : Exec E S A) (s : S) (a : A) (t : S)
      → b ≡ true
      → Runs m s a t
      → Runs (if b then m else n) s a t
  Runs-then true m n s a t h r = r
  Runs-then false m n s a t h r = absurd (ground arith)

  pub Runs-else :
      (b : Bool) (m n : Exec E S A) (s : S) (a : A) (t : S)
      → b ≡ false
      → Runs n s a t
      → Runs (if b then m else n) s a t
  Runs-else true m n s a t h r = absurd (ground arith)
  Runs-else false m n s a t h r = r

module _ {ℓ} {E S : Type ℓ} where
  pub Runs-writes : (e : E) (f : S → S) (s : S) → Runs (writes e f) s tt (f s)
  unfolding writes
  Runs-writes e f s = Runs-query e (λ t. (ok tt, f t)) s tt (f s) refl

abbrev value {ℓ} : {E A : Type ℓ} → A → Res E A → A
value z (ok x) = x
value z (err e) = z

module _ {ℓ} {E S A B : Type ℓ} where
  continue-Ran :
      (r : Res E A) (f : A → Exec E S B) (d : Session S) (a : A) (b : B) (t : S)
      → r ≡ ok a
      → Ran (f a d) b t
      → Ran (continue r f d) b t
  continue-Ran (ok x) f d a b t h r = subst (λ z. Ran (f z d) b t) (sym (ap (value a) h)) r
  continue-Ran (err e) f d a b t h r = absurd (ground arith)

  pub Runs-bind :
      (m : Exec E S A) (f : A → Exec E S B) (s t u : S) (a : A) (b : B)
      → Runs m s a t
      → Runs (f a) t b u
      → Runs (m >>= f) s b u
  unfolding ◌>>=◌
  Runs-bind m f s t u a b h k = record {
    at = λ d p q.
        let r = h.at d p q in
        continue-Ran (m d).0 f (m d).1 a b u r.result (k.at (m d).1 r.tables r.no_faults);
  }

  branch-Ran :
      (r : Res E A) (failed : E → Exec E S B) (done : A → Exec E S B) (d : Session S) (a : A)
      (b : B) (t : S)
      → r ≡ ok a
      → Ran (done a d) b t
      → Ran (branch r failed done d) b t
  branch-Ran (ok x) failed done d a b t h r =
      subst (λ z. Ran (done z d) b t) (sym (ap (value a) h)) r
  branch-Ran (err e) failed done d a b t h r = absurd (ground arith)

  pub Runs-handle :
      (m : Exec E S A) (failed : E → Exec E S B) (done : A → Exec E S B) (s t u : S) (a : A) (b : B)
      → Runs m s a t
      → Runs (done a) t b u
      → Runs (handle m failed done) s b u
  unfolding handle
  Runs-handle m failed done s t u a b h k = record {
    at = λ d p q.
        let r = h.at d p q in
        branch-Ran (m d).0 failed done (m d).1 a b u r.result (k.at (m d).1 r.tables r.no_faults);
  }

  -- A SELECT whose error the caller looks at, and that no fault hits.
  pub Runs-handle-reads :
      (e : E) (f : S → Res E A) (failed : E → Exec E S B) (done : A → Exec E S B) (s u : S)
      (r : Res E A) (b : B)
      → f s ≡ r
      → Runs (branch r failed done) s b u
      → Runs (handle (reads e f) failed done) s b u
  unfolding handle reads query
  Runs-handle-reads e f failed done s u r b h k = record {
    at = λ d p q. rw (q d.calls) (
        subst (λ z. Ran (branch z failed done (counted d)) b u) (sym (ap f p ∙ h))
          (k.at (counted d) p q));
  }
