-- ===== src/Release/Service/Dispatch/Selection.antt =====
-- internal/release/service.go: the agents that the tasks of a shard go to.
use domain_lifecycle_deploym.Base.{
  ℕ, suc, ◌%◌, ◌<◌, ◌≡◌, refl, some, List, [], ◌∷◌, length, get_elem?, arith, zero,
}
use domain_lifecycle_deploym.Release.Tables.{Agent}
use domain_lifecycle_deploym.Release.Service.Dispatch.{round_robin}

in_range :
    (n i : ℕ) (as' : List Agent) → n ≡ length as' → i < n → (a : Agent) × (get_elem? as' i ≡ some a)
in_range n i [] e h = absurd (omega arith)
in_range n zero (a ∷ as') e h = (a, refl)
in_range n (suc i) (a ∷ as') e h = in_range (length as') i as' refl (omega arith)

-- With an agent online every task gets one: the one at the task's position modulo the number of
-- agents, which is always there.
round_robin-total :
    (i : ℕ) (online : List Agent)
    → 0 < length online
    → (a : Agent) × ((round_robin i online ≡ some a)
        × (get_elem? online (i % length online) ≡ some a))
unfolding round_robin
round_robin-total i [] h = absurd (omega arith)
round_robin-total i (a ∷ as') h =
    let (x, e) = in_range _ (i % length (a ∷ as')) (a ∷ as') refl (omega arith) in (x, (e, e))
