-- ===== src/Release/Graph/Closed.antt =====
-- internal/release/statemachine.go: the table of transitions against the two lists of states.
use domain_lifecycle_deploym.Base.{
  ◌≡◌, refl, subst, String, str_eq, Bool, true, false, List, [], ◌∷◌, ◌&&◌, arith, eq_iff,
  if◌then◌else◌, Bool-cases, inl, inr,
}
use domain_lifecycle_deploym.Base.Graph.{Graph, contains, has_edge}
use domain_lifecycle_deploym.Release.Graph.{
  valid_release_transitions, all_release_states, terminal_release_states, can_release_transition,
  is_terminal_release_state,
}

abbrev all_in : List String → List String → Bool
all_in all [] = true
all_in all (t ∷ ts) = contains all t && all_in all ts

abbrev within : List String → Graph → Bool
within all [] = true
within all ((a, ts) ∷ g) = contains all a && (all_in all ts && within all g)

contains-all_in :
    (all ts : List String) (b : String)
    → all_in all ts ≡ true
    → contains ts b ≡ true
    → contains all b ≡ true
contains-all_in all [] b h c = absurd (ground arith)
contains-all_in all (t ∷ ts) b h c = elim (Bool-cases (str_eq t b)) [
  | inl e ↦ subst (λ z. contains all z ≡ true) ((eq_iff t b).0 e) (ground arith)
  | inr e ↦ contains-all_in all ts b (ground arith) (ground arith)
]

edge-within :
    (all : List String) (g : Graph) (a b : String)
    → within all g ≡ true
    → has_edge g a b ≡ true
    → (contains all a ≡ true) × (contains all b ≡ true)
edge-within all [] a b h e = absurd (ground arith)
edge-within all ((s, ts) ∷ g) a b h e = elim (Bool-cases (str_eq s a)) [
  | inl q ↦ (
    subst (λ z. contains all z ≡ true) ((eq_iff s a).0 q) (ground arith),
    contains-all_in all ts b (ground arith) (ground arith),
  )
  | inr q ↦ edge-within all g a b (ground arith) (ground arith)
]

abbrev terminal_in : List String → List String → Bool
terminal_in ends [] = true
terminal_in ends (s ∷ ss) =
    (if contains ends s
      then is_terminal_release_state s
      else if is_terminal_release_state s
      then false
      else true)
    && terminal_in ends ss

terminal_in_lem :
    (ends ss : List String) (s : String)
    → terminal_in ends ss ≡ true
    → contains ss s ≡ true
    → is_terminal_release_state s ≡ contains ends s
terminal_in_lem ends [] s h c = absurd (ground arith)
terminal_in_lem ends (x ∷ ss) s h c = elim (Bool-cases (str_eq x s)) [
  | inl e ↦
      subst (λ z. is_terminal_release_state z ≡ contains ends z) ((eq_iff x s).0 e) (ground arith)
  | inr e ↦ terminal_in_lem ends ss s (ground arith) (ground arith)
]

-- Every transition leads from a state of AllReleaseStates to one of them.
pub release_graph-Closed :
    (from to : String)
    → can_release_transition from to ≡ true
    → (contains all_release_states from ≡ true) × (contains all_release_states to ≡ true)
unfolding can_release_transition
release_graph-Closed from to e =
    edge-within all_release_states valid_release_transitions from to refl e

-- A state of AllReleaseStates has no transition out of it exactly when it is in TerminalReleaseStates.
terminal_release_states_lem :
    (s : String)
    → contains all_release_states s ≡ true
    → is_terminal_release_state s ≡ contains terminal_release_states s
unfolding is_terminal_release_state
terminal_release_states_lem s c =
    terminal_in_lem terminal_release_states all_release_states s refl c
