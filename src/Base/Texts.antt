-- ===== src/Base/Texts.antt =====
-- Texts: the parts of fmt.Sprintf and of the package strings that the components use.
use Prim.Native.Nat.{ℕ, zero, suc, ◌+◌, ◌/◌, ◌%◌}
use Prim.Native.Char.{code}
use Prim.Native.String.{String, ◌++◌}
use mathlib.Core.Bool.{Bool, true, false, ◌&&◌, ◌||◌}
use mathlib.Core.List.{List, [], ◌∷◌, map}
use domain_lifecycle_deploym.Base.Tests.{◌==◌, ltb, leb, if◌then◌else◌}

abbrev pub codes : String → List ℕ
codes String.[] = []
codes (String.◌∷◌ c s) = code c ∷ codes s

-- Letters are taken in ASCII.
abbrev lower : ℕ → ℕ
lower c = if leb b'A' c && leb c b'Z' then c + 32 else c

abbrev pub to_lower : String → List ℕ
to_lower s = map lower (codes s)

abbrev has_prefix : List ℕ → List ℕ → Bool
has_prefix s [] = true
has_prefix [] (c ∷ cs) = false
has_prefix (b ∷ s) (c ∷ cs) = b == c && has_prefix s cs

-- strings.Contains, at the codes of a text.
unfoldable pub contains_text : List ℕ → List ℕ → Bool
contains_text [] t = has_prefix [] t
contains_text (c ∷ s) t = has_prefix (c ∷ s) t || contains_text s t

abbrev digit : ℕ → String
digit d =
    if d == 0
    then "0"
    else if d == 1
    then "1"
    else if d == 2
    then "2"
    else if d == 3
    then "3"
    else if d == 4
    then "4"
    else if d == 5
    then "5"
    else if d == 6
    then "6"
    else if d == 7
    then "7"
    else if d == 8
    then "8"
    else "9"

decimal_within : ℕ → ℕ → String
decimal_within zero n = ""
decimal_within (suc f) n =
    let rest = decimal_within f (n / 10) ++ digit (n % 10) in if ltb n 10 then digit n else rest

-- The verb `%d`, at a number that is not negative.
unfoldable pub decimal : ℕ → String
unfolding decimal_within
decimal n = decimal_within (suc n) n
