-- ===== src/Gfw/Confidence/Strings.antt =====
-- internal/gfw/confidence.go, uniqueStrings.
use mathlib.Core.List.{append-nil}
use domain_lifecycle_deploym.Base.{
  String, eq_iff, Bool, true, not, ◌&&◌, List, [], ◌∷◌, ◌++◌, arith, any, ◌≡◌, refl, sym, ap, ◌∙◌,
  ◌≤◌, length, Bool-cases, inl, inr, leb, str_eq, count_where, if◌then◌else◌,
}
use domain_lifecycle_deploym.Gfw.Confidence.State.{is_seen, unique_after, unique_strings}

-- The members of the result are those of the input that were not seen before.
is_seen-unique_after :
    (s : String) (seen ss : List String)
    → is_seen s (unique_after seen ss) ≡ (is_seen s ss && not (is_seen s seen))
unfolding unique_after is_seen any
is_seen-unique_after s seen [] = refl
is_seen-unique_after s seen (x ∷ xs) =
    ground (arith, eq_iff s x, is_seen-unique_after s seen xs, is_seen-unique_after s (x ∷ seen) xs)

-- Some members removed beforehand do not change the result.
pub unique_after-append :
    (seen xs ys : List String)
    → unique_after seen (unique_after seen xs ++ ys) ≡ unique_after seen (xs ++ ys)
unfolding unique_after
unique_after-append seen [] ys = refl
unique_after-append seen (x ∷ xs) ys = elim (Bool-cases (is_seen x seen)) [
  | inl old ↦ rw old (unique_after-append seen xs ys)
  | inr new ↦ rw (new, new) (ap (◌∷◌ x) (unique_after-append (x ∷ seen) xs ys))
]

pub length-unique_after-le :
    (seen xs ys : List String)
    → length (unique_after seen xs) ≤ length (unique_after seen (xs ++ ys))
unfolding unique_after
length-unique_after-le seen [] ys = omega arith
length-unique_after-le seen (x ∷ xs) ys =
    ground (arith, length-unique_after-le seen xs ys, length-unique_after-le (x ∷ seen) xs ys)

-- A member is left exactly if the input has one that was not seen before.
pub length-unique_after :
    (seen ss : List String)
    → leb 1 (length (unique_after seen ss)) ≡ any (λ s. not (is_seen s seen)) ss
unfolding unique_after any
length-unique_after seen [] = refl
length-unique_after seen (x ∷ xs) = ground (arith, length-unique_after seen xs)

-- No member twice.
abbrev pub distinct : List String → Bool
distinct [] = true
distinct (x ∷ xs) = not (is_seen x xs) && distinct xs

unique_after-distinct : (seen ss : List String) → distinct (unique_after seen ss) ≡ true
unfolding unique_after is_seen any
unique_after-distinct seen [] = refl
unique_after-distinct seen (x ∷ xs) = ground (
  arith,
  eq_iff x x,
  is_seen-unique_after x (x ∷ seen) xs,
  unique_after-distinct seen xs,
  unique_after-distinct (x ∷ seen) xs,
)

unique_strings-distinct : (ss : List String) → distinct (unique_strings ss) ≡ true
unfolding unique_strings
unique_strings-distinct ss = unique_after-distinct [] ss

is_seen-unique_strings :
    (s : String) (ss : List String) → is_seen s (unique_strings ss) ≡ is_seen s ss
unfolding unique_strings is_seen any
is_seen-unique_strings s ss = ground (arith, is_seen-unique_after s [] ss)

pub unique_strings-append :
    (xs ys : List String) → unique_strings (unique_strings xs ++ ys) ≡ unique_strings (xs ++ ys)
unfolding unique_strings
unique_strings-append xs ys = unique_after-append [] xs ys

pub unique_strings_idem :
    (xs : List String) → unique_strings (unique_strings xs) ≡ unique_strings xs
unique_strings_idem xs =
    ap unique_strings (sym (append-nil (unique_strings xs)))
    ∙ unique_strings-append xs []
    ∙ ap unique_strings (append-nil xs)

pub length-unique_strings-le :
    (xs ys : List String) → length (unique_strings xs) ≤ length (unique_strings (xs ++ ys))
unfolding unique_strings
length-unique_strings-le xs ys = length-unique_after-le [] xs ys

-- A deduplicated list names no string twice, and names exactly the strings of the input.
pub unique_strings-Dedupes :
    (s : String) (ss : List String)
    → (distinct (unique_strings ss) ≡ true) × (is_seen s (unique_strings ss) ≡ is_seen s ss)
unique_strings-Dedupes s ss = (unique_strings-distinct ss, is_seen-unique_strings s ss)

times_listed-unique_after :
    (m : String) (seen ss : List String)
    → count_where (str_eq m) (unique_after seen ss)
      ≡ (if is_seen m seen then 0 else if any (str_eq m) ss then 1 else 0)
unfolding unique_after is_seen any count_where
times_listed-unique_after m seen [] = ground arith
times_listed-unique_after m seen (x ∷ xs) = ground (
  arith,
  eq_iff m x,
  times_listed-unique_after m seen xs,
  times_listed-unique_after m (x ∷ seen) xs,
)

pub times_listed-unique_strings :
    (m : String) (ss : List String)
    → count_where (str_eq m) (unique_strings ss) ≡ (if any (str_eq m) ss then 1 else 0)
unfolding unique_strings is_seen any
times_listed-unique_strings m ss = ground (arith, times_listed-unique_after m [] ss)
