-- ===== src/Release/Audit.antt =====
-- Sequences of operations of the release service (internal/release/service.go, rollback.go) and what
-- the table `release_state_history` then says of each release.
pub mod Steps
pub mod Walks
pub mod Laws
pub mod Trails
use domain_lifecycle_deploym.Base.{
  ℕ, ◌≡◌, String, Option, none, some, List, [], ◌∷◌, ◌==◌, if◌then◌else◌, Bool, str_eq, false, ◌||◌,
  ◌<◌,
}
use domain_lifecycle_deploym.Base.Graph.{Walk}
use domain_lifecycle_deploym.Base.Exec.{Session, Exec, with_tables, ignore}
use domain_lifecycle_deploym.Release.Tables.{
  Reason, Actor, HistoryRow, Tables, Db, ReleaseFinalizePayload,
}
use domain_lifecycle_deploym.Release.Graph.{can_release_transition}
use domain_lifecycle_deploym.Release.Service.Transition.{pause, resume, cancel}
use domain_lifecycle_deploym.Release.Service.Create.{CreateInput, create_release}
use domain_lifecycle_deploym.Release.Service.Plan.{plan, mark_ready}
use domain_lifecycle_deploym.Release.Service.Dispatch.{dispatch_shard}
use domain_lifecycle_deploym.Release.Service.Finalize.{finalize}
use domain_lifecycle_deploym.Release.Service.Rollback.{rollback, execute_rollback}
use domain_lifecycle_deploym.Release.Effects.{statuses, lookup_status}

-- What the handlers and the workers call.
pub data Operation : Type 0 where
  creates : CreateInput → ℕ → Operation
  plans : ℕ → String → Operation
  marks_ready dispatches : ℕ → ℕ → Operation
  finalizes : ReleaseFinalizePayload → Operation
  pauses cancels : ℕ → Reason → Actor → Operation
  resumes : ℕ → Actor → Operation
  rolls_back : ℕ → String → Actor → Operation
  executes_rollback : ℕ → ℕ → Actor → ℕ → Operation

module _ (digest : String → ℕ → ℕ → String) (presign : String → String → Option String) where
  unfoldable pub perform : Operation → Db Unit
  perform (creates i nanos) = ignore (create_release digest i nanos)
  perform (plans id strategy) = plan id strategy
  perform (marks_ready id artifact) = mark_ready id artifact
  perform (dispatches id shard) = dispatch_shard presign id shard
  perform (finalizes p) = finalize p
  perform (pauses id reason by) = pause id reason by
  perform (cancels id reason by) = cancel id reason by
  perform (resumes id by) = resume id by
  perform (rolls_back id reason by) = rollback id reason by
  perform (executes_rollback id artifact by n) = execute_rollback id artifact by n

  -- One operation, or a change that the rest of the program makes to the other tables.
  pub data Step (d : Session Tables) : Session Tables → Type 0 where
    operation : (o : Operation) → Step d (perform o d).1
    elsewhere :
        (t : Tables)
        → statuses t ≡ statuses d.tables
        → t.history ≡ d.tables.history
        → t.next_id ≡ d.tables.next_id
        → Step d (with_tables d t)

-- The transitions of one release, in the order of their rows.
unfoldable pub trail : ℕ → List HistoryRow → List (String × String)
trail id [] = []
trail id (h ∷ hs) =
    let rest = trail id hs in
    if h.release_id == id
    then elim h.from_state [ none ↦ rest | some from ↦ (from, h.to_state) ∷ rest ]
    else rest

-- A release's trail leads from `pending` to its status; an ID not yet given has no trail.
abbrev pub Audited : Option String → List (String × String) → Type 0
Audited none es = es ≡ []
Audited (some s) es = Walk can_release_transition "pending" es s

pub data Below (n : ℕ) : List (ℕ × String) → Type 0 where
  below_nil : Below n []
  below_cons :
      {k : ℕ} {s : String} {ss : List (ℕ × String)} → k < n → Below n ss → Below n ((k, s) ∷ ss)

pub record Consistent (t : Tables) : Type 0 where
  pub ids_below : Below t.next_id (statuses t)
  pub audited : (id : ℕ) → Audited (lookup_status id (statuses t)) (trail id t.history)
