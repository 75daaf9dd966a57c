-- ===== src/Gfw/Confidence/Trackers.antt =====
-- internal/gfw/confidence.go: RedisConfidenceTracker and MemoryConfidenceTracker.
use domain_lifecycle_deploym.Base.{ℕ, ◌+◌, String, Option, none, some, ◌==◌, ltb, if◌then◌else◌}
use domain_lifecycle_deploym.Base.Exec.{
  Res, ok, err, Exec, pure, throw, reads, writes, ◌>>=◌, ◌>>◌, on_option,
}
use domain_lifecycle_deploym.Gfw.Confidence.State.{
  ConfidenceState, empty_state, score_from_state, observed,
}

-- encoding/json at the type of the state.
pub record Json (Bytes : Type 0) : Type 0 where
  pub marshal : ConfidenceState → Option Bytes
  pub unmarshal : Bytes → Option ConfidenceState

pub record RedisEntry (Bytes : Type 0) : Type 0 where
  pub bytes : Bytes
  pub expires : ℕ

-- The key space, and the server's clock in seconds.
pub record Redis (Bytes : Type 0) : Type 0 where
  pub now : ℕ
  pub entries : ℕ → Option (RedisEntry Bytes)

pub data TrackerError : Type 0 where
  load_failed unmarshal_failed marshal_failed save_failed reset_failed : TrackerError

abbrev pub confidence_ttl : ℕ
confidence_ttl = 7200

module _ {Bytes : Type 0} where
  abbrev pub redis_get : ℕ → Redis Bytes → Option Bytes
  redis_get id r = elim (r.entries id) [
    | none ↦ none
    | some e ↦ if ltb r.now e.expires then some e.bytes else none
  ]

  abbrev pub redis_set : ℕ → Bytes → Redis Bytes → Redis Bytes
  redis_set id b r = record r {
    entries = λ k.
        if k == id
        then some (record { bytes = b; expires = r.now + confidence_ttl })
        else r.entries k;
  }

  abbrev pub redis_del : ℕ → Redis Bytes → Redis Bytes
  redis_del id r = record r { entries = λ k. if k == id then none else r.entries k }

  abbrev pub decoded : Json Bytes → Option Bytes → Res TrackerError ConfidenceState
  decoded json none = ok empty_state
  decoded json (some b) = elim (json.unmarshal b) [ none ↦ err unmarshal_failed | some s ↦ ok s ]

module _ {Bytes : Type 0} (json : Json Bytes) where
  unfoldable pub load : ℕ → Exec TrackerError (Redis Bytes) ConfidenceState
  unfolding reads
  load id = reads load_failed (λ r. decoded json (redis_get id r))

  unfoldable pub save : ℕ → ConfidenceState → Exec TrackerError (Redis Bytes) Unit
  unfolding throw writes on_option
  save id s =
      on_option (json.marshal s) (throw marshal_failed) (λ b. writes save_failed (redis_set id b))

  unfoldable pub record_observation : ℕ → String → String → Exec TrackerError (Redis Bytes) ℕ
  unfolding load save ◌>>=◌ pure observed score_from_state
  record_observation id node blocking = do
    s ← load id
    let s' = observed node blocking s
    save id s'
    pure (score_from_state s')

  unfoldable pub score : ℕ → Exec TrackerError (Redis Bytes) ℕ
  unfolding load ◌>>=◌ pure score_from_state
  score id = do s ← load id; pure (score_from_state s)

-- The key need not be there.
unfoldable pub reset : {Bytes : Type 0} → ℕ → Exec TrackerError (Redis Bytes) Unit
unfolding writes
reset id = writes reset_failed (redis_del id)

-- The map of the memory tracker; a key that is not there reads as the zero state.
abbrev pub Memory : Type 0
Memory = ℕ → Option ConfidenceState

abbrev pub or_empty : Option ConfidenceState → ConfidenceState
or_empty none = empty_state
or_empty (some s) = s

abbrev pub memory_state : Memory → ℕ → ConfidenceState
memory_state m id = or_empty (m id)

unfoldable pub memory_record_observation : ℕ → String → String → Memory → ℕ × Memory
unfolding observed score_from_state
memory_record_observation id node blocking m =
    let s = observed node blocking (memory_state m id) in
    (score_from_state s, λ k. if k == id then some s else m k)

unfoldable pub memory_score : ℕ → Memory → ℕ
unfolding score_from_state
memory_score id m = score_from_state (memory_state m id)

unfoldable pub memory_reset : ℕ → Memory → Memory
memory_reset id m = λ k. if k == id then none else m k
