-- ===== src/Release/Graph.antt =====
-- internal/release/statemachine.go: the release state graph.
pub mod Closed
use domain_lifecycle_deploym.Base.{String, Bool, false, none, some, List, [], ◌∷◌, ◌==◌, length}
use domain_lifecycle_deploym.Base.Graph.{Graph, targets, has_edge}

abbrev pub valid_release_transitions : Graph
valid_release_transitions =
    ("pending", "planning" ∷ "cancelled" ∷ [])
    ∷ ("planning", "ready" ∷ "cancelled" ∷ "failed" ∷ [])
    ∷ ("ready", "executing" ∷ "cancelled" ∷ [])
    ∷ ("executing", "paused" ∷ "succeeded" ∷ "failed" ∷ [])
    ∷ ("paused", "executing" ∷ "rolling_back" ∷ "cancelled" ∷ [])
    ∷ ("succeeded", [])
    ∷ ("failed", "rolling_back" ∷ "cancelled" ∷ [])
    ∷ ("rolling_back", "rolled_back" ∷ "failed" ∷ [])
    ∷ ("rolled_back", [])
    ∷ ("cancelled", [])
    ∷ []

abbrev pub all_release_states : List String
all_release_states =
    "pending" ∷ "planning" ∷ "ready" ∷ "executing" ∷ "paused" ∷ "succeeded" ∷ "failed"
    ∷ "rolling_back" ∷ "rolled_back" ∷ "cancelled" ∷ []

abbrev pub terminal_release_states : List String
terminal_release_states = "succeeded" ∷ "rolled_back" ∷ "cancelled" ∷ []

unfoldable pub can_release_transition : String → String → Bool
can_release_transition from to = has_edge valid_release_transitions from to

-- A missing key reads as the nil slice.
unfoldable pub valid_release_targets : String → List String
valid_release_targets from = elim (targets from valid_release_transitions) [
  | none ↦ []
  | some ts ↦ ts
]

unfoldable pub is_terminal_release_state : String → Bool
is_terminal_release_state state = elim (targets state valid_release_transitions) [
  | none ↦ false
  | some ts ↦ length ts == 0
]
