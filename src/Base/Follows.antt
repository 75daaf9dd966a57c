-- ===== src/Base/Follows.antt =====
-- What an action does to the tables, as a sequence of steps of a relation, whatever calls fail.
use mathlib.Core.Path.{◌≡◌, refl}
use mathlib.Core.Bool.{Bool, true, false}
use mathlib.Core.Option.{Option, none, some}
use mathlib.Core.List.{List, [], ◌∷◌}
use domain_lifecycle_deploym.Base.Tests.{if◌then◌else◌}
use domain_lifecycle_deploym.Base.Exec.{
  Res, ok, err, Session, Exec, counted, with_tables, pure, throw, lift, query, reads, writes,
  transaction, settle, attempt, or_fail, ignore, ◌>>=◌, continue, branch, handle, on_option,
  for_each,
}

pub data Star {ℓ} {S : Type ℓ} (R : S → S → Type ℓ) (s : S) : S → Type ℓ where
  here : Star R s s
  next : {t u : S} → Star R s t → R t u → Star R s u

module _ {ℓ} {S : Type ℓ} {R : S → S → Type ℓ} where
  pub Star-trans : {s t u : S} → Star R s t → Star R t u → Star R s u
  Star-trans p here = p
  Star-trans p (next q r) = next (Star-trans p q) r

  pub one : {s t : S} → R s t → Star R s t
  one r = next here r

pub record Follows {ℓ} {E S A : Type ℓ} (R : S → S → Type ℓ) (m : Exec E S A) : Type ℓ where
  pub at : (d : Session S) → Star R d.tables (m d).1.tables

module _ {ℓ} {E S A : Type ℓ} {R : S → S → Type ℓ} where
  pub Follows-pure : (a : A) → Follows {E = E} R (pure a)
  unfolding pure
  Follows-pure a = record { at = λ d. here }

  pub Follows-throw : (e : E) → Follows {A = A} R (throw e)
  unfolding throw
  Follows-throw e = record { at = λ d. here }

  pub Follows-lift : (r : Res E A) → Follows R (lift r)
  unfolding lift
  Follows-lift r = record { at = λ d. here }

  or_fail-Star :
      (s : S) (b : Bool) (e : E) (m : Exec E S A) (d : Session S)
      → Star R s d.tables
      → Star R s (m (counted d)).1.tables
      → Star R s (or_fail b e m d).1.tables
  or_fail-Star s true e m d h k = h
  or_fail-Star s false e m d h k = k

  pub Follows-query :
      (e : E) (f : S → Res E A × S) → ((s : S) → Star R s (f s).1) → Follows R (query e f)
  unfolding query
  Follows-query e f h = record {
    at = λ d. or_fail-Star d.tables (d.faults d.calls) e _ d here (h d.tables);
  }

  pub Follows-reads : (e : E) (f : S → Res E A) → Follows R (reads e f)
  unfolding reads
  Follows-reads e f = Follows-query e (λ s. (f s, s)) (λ s. here)

  pub Follows-attempt : (m : Exec E S A) → Follows R m → Follows R (attempt m)
  unfolding attempt
  Follows-attempt m h = record { at = λ d. h.at d }

  pub Follows-ignore : (m : Exec E S A) → Follows R m → Follows R (ignore m)
  unfolding ignore
  Follows-ignore m h = record { at = λ d. h.at d }

  pub Follows-if :
      (b : Bool) (m n : Exec E S A)
      → (b ≡ true → Follows R m)
      → (b ≡ false → Follows R n)
      → Follows R (if b then m else n)
  Follows-if true m n hm hn = hm refl
  Follows-if false m n hm hn = hn refl

  settle-Star :
      (s : S) (e : E) (r : Res E A) (d : Session S)
      → Star R s d.tables
      → Star R s (settle s e r d).1.tables
  settle-Star s e (err x) d h = here
  settle-Star s e (ok a) d h =
      or_fail-Star s (d.faults d.calls) e (λ _. (ok a, counted d)) (with_tables d s) here h

  pub Follows-transaction : (e c : E) (m : Exec E S A) → Follows R m → Follows R (transaction e c m)
  unfolding transaction
  Follows-transaction e c m h = record {
    at = λ d.
        let (r, d1) = m (counted d) in
        or_fail-Star d.tables (d.faults d.calls) e _ d here
          (settle-Star d.tables c r d1 (h.at (counted d)));
  }

  settled-Star :
      (s : S) (e : E) (r : Res E A) (d : Session S)
      → ((a : A) → r ≡ ok a → Star R s d.tables)
      → Star R s (settle s e r d).1.tables
  settled-Star s e (err x) d h = here
  settled-Star s e (ok a) d h =
      or_fail-Star s (d.faults d.calls) e (λ _. (ok a, counted d)) (with_tables d s) here (h a refl)

  -- Only a body that returns is committed, so only what it has done then counts.
  pub Follows-committed :
      (e c : E) (m : Exec E S A)
      → ((d : Session S) (a : A) → (m d).0 ≡ ok a → Star R d.tables (m d).1.tables)
      → Follows R (transaction e c m)
  unfolding transaction
  Follows-committed e c m h = record {
    at = λ d.
        let (r, d1) = m (counted d) in
        or_fail-Star d.tables (d.faults d.calls) e _ d here
          (settled-Star d.tables c r d1 (λ a. h (counted d) a));
  }

module _ {ℓ} {E S : Type ℓ} {R : S → S → Type ℓ} where
  pub Follows-writes : (e : E) (f : S → S) → ((s : S) → Star R s (f s)) → Follows R (writes e f)
  unfolding writes
  Follows-writes e f h = Follows-query e (λ s. (ok tt, f s)) h

module _ {ℓ} {E S A B : Type ℓ} {R : S → S → Type ℓ} where
  continue-Star :
      (s : S) (r : Res E A) (f : A → Exec E S B) (d : Session S)
      → Star R s d.tables
      → ((a : A) → r ≡ ok a → Follows R (f a))
      → Star R s (continue r f d).1.tables
  continue-Star s (ok a) f d h k = Star-trans h ((k a refl).at d)
  continue-Star s (err e) f d h k = h

  pub Follows-bind :
      (m : Exec E S A) (f : A → Exec E S B)
      → Follows R m
      → ((a : A) → Follows R (f a))
      → Follows R (m >>= f)
  unfolding ◌>>=◌
  Follows-bind m f hm hf = record {
    at = λ d. let (r, d') = m d in continue-Star d.tables r f d' (hm.at d) (λ a _. hf a);
  }

  -- The rest of the block may use that the value was computed.
  pub Follows-bind-lift :
      (r : Res E A) (f : A → Exec E S B)
      → ((a : A) → r ≡ ok a → Follows R (f a))
      → Follows R (lift r >>= f)
  unfolding ◌>>=◌ lift
  Follows-bind-lift r f hf = record { at = λ d. continue-Star d.tables r f d here hf }

module _ {ℓ} {E S A B : Type ℓ} {R : S → S → Type ℓ} where
  branch-Star :
      (s : S) (r : Res E A) (failed : E → Exec E S B) (done : A → Exec E S B) (d : Session S)
      → Star R s d.tables
      → ((e : E) → Follows R (failed e))
      → ((a : A) → Follows R (done a))
      → Star R s (branch r failed done d).1.tables
  branch-Star s (ok a) failed done d h f k = Star-trans h ((k a).at d)
  branch-Star s (err e) failed done d h f k = Star-trans h ((f e).at d)

  pub Follows-handle :
      (m : Exec E S A) (failed : E → Exec E S B) (done : A → Exec E S B)
      → Follows R m
      → ((e : E) → Follows R (failed e))
      → ((a : A) → Follows R (done a))
      → Follows R (handle m failed done)
  unfolding handle
  Follows-handle m failed done h f k = record {
    at = λ d. let (r, d') = m d in branch-Star d.tables r failed done d' (h.at d) f k;
  }

  pub Follows-on_option :
      (o : Option A) (absent : Exec E S B) (present : A → Exec E S B)
      → Follows R absent
      → ((a : A) → Follows R (present a))
      → Follows R (on_option o absent present)
  unfolding on_option
  Follows-on_option none absent present h k = h
  Follows-on_option (some a) absent present h k = k a

module _ {ℓ} {E S A : Type ℓ} {R : S → S → Type ℓ} where
  pub Follows-for_each :
      (f : A → Exec E S (Unit {ℓ})) (xs : List A)
      → ((a : A) → Follows R (f a))
      → Follows R (for_each f xs)
  unfolding for_each
  Follows-for_each f [] h = Follows-pure tt
  Follows-for_each f (x ∷ xs) h =
      Follows-bind (f x) (λ _. for_each f xs) (h x) (λ _. Follows-for_each f xs h)

pub ruleset follows_rules = (
  Follows-pure, Follows-throw, Follows-lift, Follows-reads, Follows-attempt, Follows-ignore,
  Follows-if, Follows-transaction, Follows-bind, Follows-handle, Follows-on_option,
  Follows-for_each,
)
