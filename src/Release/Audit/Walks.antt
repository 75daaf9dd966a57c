-- ===== src/Release/Audit/Walks.antt =====
-- internal/release/statemachine.go: walks in the state graph, from the table of the transitions.
use domain_lifecycle_deploym.Base.{
  ◌≡◌, refl, String, Bool, true, false, Option, none, some, List, [], ◌∷◌, arith, ◌==◌, ◌&&◌, ◌||◌,
  str_eq, eq_iff, Bool-cases, inl, inr, ◌⊎◌, subst, any, length, sym,
}
use domain_lifecycle_deploym.Base.Graph.{Graph, Walk, targets, contains, has_edge}
use domain_lifecycle_deploym.Release.Graph.{
  can_release_transition, is_terminal_release_state, valid_release_transitions,
}

none_left :
    (o : Option (List String)) (y : String)
    → elim o [ none ↦ false | some ts ↦ length ts == 0 ] ≡ true
    → elim o [ none ↦ false | some ts ↦ contains ts y ] ≡ true
    → ⊥
none_left none y h e = ground arith
none_left (some []) y h e = ground arith
none_left (some (t ∷ ts)) y h e = ground arith

terminal-stuck :
    (x y : String) → is_terminal_release_state x ≡ true → can_release_transition x y ≡ true → ⊥
unfolding is_terminal_release_state can_release_transition
terminal-stuck x y h e = none_left (targets x valid_release_transitions) y h e

-- No walk leaves a terminal state.
pub terminal-Walk :
    (x y : String) (es : List (String × String))
    → is_terminal_release_state x ≡ true
    → Walk can_release_transition x es y
    → (x ≡ y) × (es ≡ [])
terminal-Walk x y [] h w = (w, refl)
terminal-Walk x y ((a, b) ∷ es) h (p, q, r) = absurd (terminal-stuck x b h (rw p at q))

-- The states that a release has only after it was dispatched.
abbrev pub started : String → Bool
started s = str_eq s "executing" || (str_eq s "paused" || str_eq s "succeeded")

abbrev pub is_edge : String → String → String × String → Bool
is_edge from to (a, b) = str_eq a from && str_eq b to

started-cases :
    (y : String) → started y ≡ true → (y ≡ "executing") ⊎ ((y ≡ "paused") ⊎ (y ≡ "succeeded"))
started-cases y h = ground (arith, eq_iff y "executing", eq_iff y "paused", eq_iff y "succeeded")

-- The states that have an edge to `b`, by the graph.
abbrev leads_to : Graph → String → String → Bool
leads_to [] b x = false
leads_to ((a, ts) ∷ g) b x = (contains ts b && str_eq a x) || leads_to g b x

leads_to_lem : (g : Graph) (x b : String) → has_edge g x b ≡ true → leads_to g b x ≡ true
leads_to_lem [] x b h = ground arith
leads_to_lem ((a, ts) ∷ g) x b h = ground (arith, leads_to_lem g x b)

can-leads_to :
    (x b : String)
    → can_release_transition x b ≡ true
    → leads_to valid_release_transitions b x ≡ true
unfolding can_release_transition
can-leads_to x b h = leads_to_lem valid_release_transitions x b h

to_executing :
    (x : String)
    → leads_to valid_release_transitions "executing" x ≡ true
    → started x ≡ false
    → str_eq x "ready" ≡ true
to_executing x e n =
    ground (arith, eq_iff "ready" x, eq_iff x "ready", eq_iff "paused" x, eq_iff x "paused")

to_paused : (x : String) → leads_to valid_release_transitions "paused" x ≡ true → started x ≡ true
to_paused x e = ground (arith, eq_iff "executing" x, eq_iff x "executing")

to_succeeded :
    (x : String) → leads_to valid_release_transitions "succeeded" x ≡ true → started x ≡ true
to_succeeded x e = ground (arith, eq_iff "executing" x, eq_iff x "executing")

started-edge :
    (x y : String)
    → can_release_transition x y ≡ true
    → started x ≡ false
    → started y ≡ true
    → is_edge "ready" "executing" (x, y) ≡ true
unfolding can_release_transition
started-edge x y e n s = elim (started-cases y s) [
  | inl p ↦ rw (p, to_executing x (can-leads_to x "executing" (rw p at e)) n) refl
  | inr (inl p) ↦ absurd (ground (arith, to_paused x (can-leads_to x "paused" (rw p at e))))
  | inr (inr p) ↦ absurd (ground (arith, to_succeeded x (can-leads_to x "succeeded" (rw p at e))))
]

pub started-Walk :
    (x y : String) (es : List (String × String))
    → started x ≡ false
    → started y ≡ true
    → Walk can_release_transition x es y
    → any (is_edge "ready" "executing") es ≡ true
unfolding any
started-Walk x y [] n s w = absurd (ground (arith, subst (λ z. started z ≡ true) (sym w) s))
started-Walk x y ((a, b) ∷ es) n s (p, q, r) = elim (Bool-cases (started b)) [
  | inl t ↦ rw (started-edge a b q (rw (sym p) at n) t) refl
  | inr f ↦ ground (arith, started-Walk b y es f s r)
]
