-- ===== src/Release/Service/Transition.antt =====
-- internal/release/service.go: `TransitionRelease`, and the operations that are one transition.
pub mod Atomicity
use domain_lifecycle_deploym.Base.{ℕ, String, if◌then◌else◌}
use domain_lifecycle_deploym.Base.Exec.{throw, transaction, writes, ignore, ◌>>=◌, ◌>>◌}
use domain_lifecycle_deploym.Base.{List, [], ◌∷◌, ◌++◌}
use domain_lifecycle_deploym.Release.Tables.{
  db_failed, invalid_release_state, Reason, text, Actor, named, Job, Db,
}
use domain_lifecycle_deploym.Release.Graph.{can_release_transition}
use domain_lifecycle_deploym.Release.Store.{get_by_id, set_ended_at, transition_tx}

-- The queue client; the call fails like any other.
unfoldable pub enqueue : Job → Db Unit
unfolding writes
enqueue job = writes db_failed (λ t. record t { queue = t.queue ++ job ∷ [] })

abbrev pub system : Actor
system = named "system"

unfoldable pub transition_release : ℕ → String → String → Reason → Actor → Db Unit
unfolding throw transaction transition_tx can_release_transition
transition_release id from to reason by =
    if can_release_transition from to
    then transaction db_failed db_failed (transition_tx id from to reason by)
    else throw invalid_release_state

unfoldable pub pause : ℕ → Reason → Actor → Db Unit
unfolding transition_release
pause id reason by = transition_release id "executing" "paused" reason by

unfoldable pub resume : ℕ → Actor → Db Unit
unfolding transition_release
resume id by = transition_release id "paused" "executing" (text "resumed") by

unfoldable pub cancel : ℕ → Reason → Actor → Db Unit
unfolding ◌>>=◌ throw ignore get_by_id can_release_transition transition_release set_ended_at
cancel id reason by = do
  rel ← get_by_id id
  if can_release_transition rel.status "cancelled"
      then (do transition_release id rel.status "cancelled" reason by; ignore (set_ended_at id))
      else throw invalid_release_state
