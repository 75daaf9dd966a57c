-- ===== src/Base/Graph.antt =====
-- State graphs given as the source gives them, a map from a state to its targets, and walks in them.
use Prim.Native.String.{String}
use text.Mathlib.Text.{◌==◌ as str_eq}
use mathlib.Core.Path.{◌≡◌}
use mathlib.Core.Bool.{Bool, true, false, ◌||◌}
use mathlib.Core.Option.{Option, none, some}
use mathlib.Core.List.{List, [], ◌∷◌, ◌++◌}
use native.Mathlib.Omega.{arith}
use domain_lifecycle_deploym.Base.Tests.{if◌then◌else◌}

abbrev pub Graph : Type 0
Graph = List (String × List String)

abbrev pub targets : String → Graph → Option (List String)
targets from [] = none
targets from ((state, ts) ∷ g) =
    let rest = targets from g in if str_eq state from then some ts else rest

abbrev pub contains : List String → String → Bool
contains [] to = false
contains (t ∷ ts) to = str_eq t to || contains ts to

-- The loop that the three `Can…Transition` functions share.
abbrev pub has_edge : Graph → String → String → Bool
has_edge g from to = elim (targets from g) [ none ↦ false | some ts ↦ contains ts to ]

-- `es` are edges that lead from `a` to `b`.
abbrev pub Walk : (String → String → Bool) → String → List (String × String) → String → Type 0
Walk can a [] b = a ≡ b
Walk can a ((x, y) ∷ es) b = (x ≡ a) × (can x y ≡ true) × Walk can y es b

pub Walk-snoc :
    (can : String → String → Bool) (a b c : String) (es : List (String × String))
    → Walk can a es b
    → can b c ≡ true
    → Walk can a (es ++ (b, c) ∷ []) c
Walk-snoc can a b c [] h e = ground arith
Walk-snoc can a b c ((x, y) ∷ es) (p, q, r) e = (p, q, Walk-snoc can y b c es r e)
