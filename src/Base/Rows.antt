-- ===== src/Base/Rows.antt =====
-- Tables as lists of rows: the statements that the stores send, and lists over native numbers.
use Prim.Native.Nat.{ℕ, zero, suc, ◌+◌, ◌≤◌}
use mathlib.Core.Path.{◌≡◌, refl, ap}
use mathlib.Core.Logic.{inl, inr}
use mathlib.Core.Bool.{Bool, true, false, ◌||◌}
use mathlib.Core.Option.{Option, none, some}
use mathlib.Core.List.{List, [], ◌∷◌, ◌++◌, map}
use native.Mathlib.Omega.{arith}
use domain_lifecycle_deploym.Base.Tests.{if◌then◌else◌, Bool-cases}

module _ {ℓ} {A : Type ℓ} where
  abbrev pub length : List A → ℕ
  length [] = 0
  length (x ∷ xs) = suc (length xs)

  pub length-append : (xs ys : List A) → length (xs ++ ys) ≡ length xs + length ys
  length-append [] ys = omega arith
  length-append (x ∷ xs) ys = omega (arith, length-append xs ys)

  abbrev pub get_elem? : List A → ℕ → Option A
  get_elem? [] i = none
  get_elem? (x ∷ xs) zero = some x
  get_elem? (x ∷ xs) (suc i) = get_elem? xs i

  -- SELECT … WHERE p.
  unfoldable pub select : (A → Bool) → List A → List A
  select p [] = []
  select p (x ∷ xs) = let rest = select p xs in if p x then x ∷ rest else rest

  -- SELECT COUNT(*) … WHERE p.
  unfoldable pub count_where : (A → Bool) → List A → ℕ
  count_where p [] = 0
  count_where p (x ∷ xs) = let rest = count_where p xs in if p x then suc rest else rest

  -- SELECT … WHERE p LIMIT 1.
  unfoldable pub first : (A → Bool) → List A → Option A
  first p [] = none
  first p (x ∷ xs) = let rest = first p xs in if p x then some x else rest

  unfoldable pub any : (A → Bool) → List A → Bool
  any p [] = false
  any p (x ∷ xs) = p x || any p xs

  -- UPDATE … SET f WHERE p.
  unfoldable pub update_where : (A → Bool) → (A → A) → List A → List A
  update_where p f [] = []
  update_where p f (x ∷ xs) = (if p x then f x else x) ∷ update_where p f xs

  -- ORDER BY: a stable insertion sort; `before x y` says that `x` does not come after `y`.
  unfoldable pub insert_by : (A → A → Bool) → A → List A → List A
  insert_by before a [] = a ∷ []
  insert_by before a (x ∷ xs) =
      let rest = x ∷ insert_by before a xs in if before a x then a ∷ x ∷ xs else rest

  unfoldable pub sort_by : (A → A → Bool) → List A → List A
  unfolding insert_by
  sort_by before [] = []
  sort_by before (x ∷ xs) = insert_by before x (sort_by before xs)

module _ {ℓ κ} {A : Type ℓ} {B : Type κ} where
  -- An update that leaves a column alone leaves its projection alone.
  pub map-update_where :
      (g : A → B) (p : A → Bool) (f : A → A) (xs : List A)
      → ((a : A) → g (f a) ≡ g a)
      → map g (update_where p f xs) ≡ map g xs
  unfolding update_where
  map-update_where g p f [] h = refl
  map-update_where g p f (x ∷ xs) h = ground (arith, h x, map-update_where g p f xs h)

  pub map-append : (g : A → B) (xs ys : List A) → map g (xs ++ ys) ≡ map g xs ++ map g ys
  map-append g [] ys = refl
  map-append g (x ∷ xs) ys = ap (◌∷◌ (g x)) (map-append g xs ys)

module _ {ℓ} {A : Type ℓ} where
  pub count_where-append :
      (p : A → Bool) (xs ys : List A)
      → count_where p (xs ++ ys) ≡ count_where p xs + count_where p ys
  unfolding count_where
  count_where-append p [] ys = omega arith
  count_where-append p (x ∷ xs) ys = ground (arith, count_where-append p xs ys)

  pub length-select : (p : A → Bool) (xs : List A) → length (select p xs) ≡ count_where p xs
  unfolding select count_where
  length-select p [] = refl
  length-select p (x ∷ xs) = ground (arith, length-select p xs)

  pub select-append :
      (p : A → Bool) (xs ys : List A) → select p (xs ++ ys) ≡ select p xs ++ select p ys
  unfolding select
  select-append p [] ys = refl
  select-append p (x ∷ xs) ys = ground (arith, select-append p xs ys)

  -- An update leaves its row where the condition finds it.
  pub first-update_where :
      (p : A → Bool) (f : A → A) (xs : List A) (a : A)
      → first p xs ≡ some a
      → ((x : A) → p (f x) ≡ p x)
      → first p (update_where p f xs) ≡ some (f a)
  unfolding first update_where
  first-update_where p f [] a h k = absurd (ground arith)
  first-update_where p f (x ∷ xs) a h k = ground (arith, k x, first-update_where p f xs a)

  pub first_holds : (p : A → Bool) (xs : List A) (a : A) → first p xs ≡ some a → p a ≡ true
  unfolding first
  first_holds p [] a h = absurd (ground arith)
  first_holds p (x ∷ xs) a h = elim (Bool-cases (p x)) [
    | inl holds ↦ ground (arith, holds, h)
    | inr fails ↦ first_holds p xs a (rw fails at h)
  ]

module _ {ℓ} {A : Type ℓ} where
  pub count_where_mono :
      (p q : A → Bool) (xs : List A)
      → ((x : A) → p x ≡ true → q x ≡ true)
      → count_where p xs ≤ count_where q xs
  unfolding count_where
  count_where_mono p q [] h = omega arith
  count_where_mono p q (x ∷ xs) h = ground (arith, h x, count_where_mono p q xs h)

  -- An update that makes no new rows of the kind makes no more of them.
  pub count_where-update_where :
      (p q : A → Bool) (f : A → A) (xs : List A)
      → ((x : A) → p (f x) ≡ true → p x ≡ true)
      → count_where p (update_where q f xs) ≤ count_where p xs
  unfolding count_where update_where
  count_where-update_where p q f [] h = omega arith
  count_where-update_where p q f (x ∷ xs) h =
      ground (arith, h x, count_where-update_where p q f xs h)

  pub count_where-any : (p : A → Bool) (xs : List A) → any p xs ≡ false → count_where p xs ≡ 0
  unfolding count_where any
  count_where-any p [] h = refl
  count_where-any p (x ∷ xs) h = ground (arith, count_where-any p xs)
