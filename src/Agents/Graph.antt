-- ===== src/Agents/Graph.antt =====
-- internal/agent/statemachine.go.
use domain_lifecycle_deploym.Base.{String, Bool, false, ◌==◌, none, some, List, [], ◌∷◌, length}
use domain_lifecycle_deploym.Base.Graph.{Graph, targets, has_edge}

abbrev pub valid_agent_transitions : Graph
valid_agent_transitions =
    ("registered", "online" ∷ [])
    ∷ ("online", "busy" ∷ "idle" ∷ "offline" ∷ "draining" ∷ "disabled" ∷ "upgrading" ∷ "error" ∷ [])
    ∷ ("busy", "online" ∷ "offline" ∷ "error" ∷ [])
    ∷ ("idle", "online" ∷ "busy" ∷ "offline" ∷ "draining" ∷ "disabled" ∷ "error" ∷ [])
    ∷ ("offline", "online" ∷ "error" ∷ [])
    ∷ ("draining", "disabled" ∷ "offline" ∷ "error" ∷ [])
    ∷ ("disabled", "online" ∷ [])
    ∷ ("upgrading", "online" ∷ "error" ∷ [])
    ∷ ("error", "online" ∷ "disabled" ∷ [])
    ∷ []

unfoldable pub can_agent_transition : String → String → Bool
can_agent_transition from to = has_edge valid_agent_transitions from to

unfoldable pub valid_agent_targets : String → List String
valid_agent_targets from = elim (targets from valid_agent_transitions) [ none ↦ [] | some ts ↦ ts ]

unfoldable pub is_terminal_agent_state : String → Bool
is_terminal_agent_state state = elim (targets state valid_agent_transitions) [
  | none ↦ false
  | some ts ↦ length ts == 0
]
