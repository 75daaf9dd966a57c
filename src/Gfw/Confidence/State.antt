-- ===== src/Gfw/Confidence/State.antt =====
-- internal/gfw/confidence.go: the state of one domain, its score, and the change that an observation
-- makes. Redis and the memory tracker share them.
use domain_lifecycle_deploym.Base.{
  ℕ, suc, String, str_eq, Bool, not, ◌&&◌, List, [], ◌∷◌, ◌++◌, length, leb, if◌then◌else◌, any,
}

pub record ConfidenceState : Type 0 where
  pub count : ℕ
  pub unique_nodes : List String
  pub last_blocking : String

-- The zero value of the struct.
abbrev pub empty_state : ConfidenceState
empty_state = record { count = 0; unique_nodes = []; last_blocking = "" }

-- A key of the map `seen`.
unfoldable pub is_seen : String → List String → Bool
unfolding any
is_seen s seen = any (str_eq s) seen

unfoldable pub unique_after : List String → List String → List String
unfolding is_seen
unique_after seen [] = []
unique_after seen (s ∷ ss) =
    let kept = s ∷ unique_after (s ∷ seen) ss in
    if is_seen s seen then unique_after seen ss else kept

unfoldable pub unique_strings : List String → List String
unfolding unique_after
unique_strings ss = unique_after [] ss

unfoldable pub score_from_state : ConfidenceState → ℕ
unfolding unique_strings
score_from_state s =
    let nodes = length (unique_strings s.unique_nodes) in
    if leb 3 s.count && leb 2 nodes
    then 90
    else if leb 2 nodes
    then 70
    else if leb 2 s.count
    then 50
    else if leb 1 s.count
    then 30
    else 0

-- The middle of Record; an empty `blocking` says that the domain was accessible.
unfoldable pub observed : String → String → ConfidenceState → ConfidenceState
unfolding unique_strings
observed node blocking s = if str_eq blocking "" then empty_state else record {
  count =
      if not (str_eq blocking s.last_blocking) && not (str_eq s.last_blocking "")
      then 1
      else suc s.count;
  unique_nodes = unique_strings (s.unique_nodes ++ node ∷ []);
  last_blocking = blocking;
}
