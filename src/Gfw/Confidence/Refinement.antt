-- ===== src/Gfw/Confidence/Refinement.antt =====
-- internal/gfw/confidence.go: the tracker in Redis against the tracker in memory.
use domain_lifecycle_deploym.Base.{
  ℕ, String, List, [], ◌∷◌, Option, none, some, ◌==◌, if◌then◌else◌, ◌≡◌, refl, arith, false,
  Bool-cases, inl, inr, sym, subst,
}
use domain_lifecycle_deploym.Base.Exec.{ok, Exec, Session, pure, on_option, ◌>>=◌}
use domain_lifecycle_deploym.Base.Runs.{Runs, Runs-pure, Runs-reads, Runs-writes, Runs-bind}
use domain_lifecycle_deploym.Gfw.Confidence.State.{ConfidenceState, score_from_state, observed}
use domain_lifecycle_deploym.Gfw.Confidence.Trackers.{
  Json, Redis, TrackerError, load_failed, save_failed, redis_get, redis_set, redis_del, decoded,
  load, save, record_observation, score, reset, Memory, memory_state, memory_record_observation,
  memory_score, memory_reset, reset_failed,
}

-- A call of the interface ConfidenceTracker, for a domain.
pub data Call : Type 0 where
  observe : ℕ → String → String → Call
  ask : ℕ → Call
  clear : ℕ → Call

-- The score that the call returns, if it returns one.
abbrev pub scored : {E S : Type 0} → Exec E S ℕ → Exec E S (Option ℕ)
scored m = m >>= λ n. pure (some n)

abbrev pub memory_call : Call → Memory → Option ℕ × Memory
memory_call (observe id node blocking) m =
    let (n, m') = memory_record_observation id node blocking m in (some n, m')
memory_call (ask id) m = (some (memory_score id m), m)
memory_call (clear id) m = (none, memory_reset id m)

unfoldable pub memory_calls : List Call → Memory → List (Option ℕ) × Memory
memory_calls [] m = ([], m)
memory_calls (c ∷ cs) m =
    let (a, m1) = memory_call c m in let (as', m2) = memory_calls cs m1 in (a ∷ as', m2)

module _ {Bytes : Type 0} (json : Json Bytes) where
  abbrev pub redis_call : Call → Exec TrackerError (Redis Bytes) (Option ℕ)
  redis_call (observe id node blocking) = scored (record_observation json id node blocking)
  redis_call (ask id) = scored (score json id)
  redis_call (clear id) = reset id >>= λ _. pure none

  unfoldable pub redis_calls : List Call → Exec TrackerError (Redis Bytes) (List (Option ℕ))
  redis_calls [] = pure []
  redis_calls (c ∷ cs) = redis_call c >>= λ a. redis_calls cs >>= λ as'. pure (a ∷ as')

  -- Both trackers hold the same state of every domain.
  abbrev pub Represents : Redis Bytes → Memory → Type 0
  Represents r m = (id : ℕ) → decoded json (redis_get id r) ≡ ok (memory_state m id)

  -- What is encoded can be decoded.
  abbrev pub RoundTrips : Type 0
  RoundTrips =
      (s : ConfidenceState) → (b : Bytes) × (json.marshal s ≡ some b) × (json.unmarshal b ≡ some s)

module _ {Bytes : Type 0} where
  redis_get-set :
      (k id : ℕ) (b : Bytes) (r : Redis Bytes)
      → redis_get k (redis_set id b r) ≡ (if k == id then some b else redis_get k r)
  redis_get-set k id b r = ground arith

  redis_get-del :
      (k id : ℕ) (r : Redis Bytes)
      → redis_get k (redis_del id r) ≡ (if k == id then none else redis_get k r)
  redis_get-del k id r = ground arith

module _ {Bytes : Type 0} {json : Json Bytes} (trips : RoundTrips json) where
  redis_set-Represents :
      (r : Redis Bytes) (m : Memory) (id : ℕ) (s : ConfidenceState) (b : Bytes)
      → json.unmarshal b ≡ some s
      → Represents json r m
      → Represents json (redis_set id b r) (λ k. if k == id then some s else m k)
  redis_set-Represents r m id s b q h k =
      rw (redis_get-set k id b r)
        (elim (Bool-cases (k == id)) [ inl same ↦ rw (same, q) refl | inr other ↦ rw other (h k) ])

  redis_del-Represents :
      (r : Redis Bytes) (m : Memory) (id : ℕ)
      → Represents json r m
      → Represents json (redis_del id r) (memory_reset id m)
  unfolding memory_reset
  redis_del-Represents r m id h k =
      rw (redis_get-del k id r)
        (elim (Bool-cases (k == id)) [ inl same ↦ rw same refl | inr other ↦ rw other (h k) ])

  save-Runs :
      (r : Redis Bytes) (m : Memory) (id : ℕ) (s : ConfidenceState)
      → Represents json r m
      → (t : Redis Bytes) × Runs (save json id s) r tt t
        × Represents json t (λ k. if k == id then some s else m k)
  unfolding save on_option
  save-Runs r m id s h =
      let (b, p, q) = trips s in
      (
        redis_set id b r,
        rw p (Runs-writes save_failed (redis_set id b) r),
        redis_set-Represents r m id s b q h,
      )

  load-Runs :
      (r : Redis Bytes) (m : Memory) (id : ℕ)
      → Represents json r m
      → Runs (load json id) r (memory_state m id) r
  unfolding load
  load-Runs r m id h = Runs-reads load_failed _ r _ (h id)

  -- One call on each tracker.
  redis_call-Runs :
      (c : Call) (r : Redis Bytes) (m : Memory)
      → Represents json r m
      → (t : Redis Bytes) × Runs (redis_call json c) r (memory_call c m).0 t
        × Represents json t (memory_call c m).1
  unfolding record_observation score reset memory_record_observation memory_score
  redis_call-Runs (observe id node blocking) r m h =
      let s = memory_state m id in
      let s' = observed node blocking s in
      let (t, p, q) = save-Runs r m id s' h in
      (
        t,
        Runs-bind _ _ r t t (score_from_state s') _
            (Runs-bind _ _ r r t s _ (load-Runs r m id h)
              (Runs-bind _ _ r t t tt _ p (Runs-pure _ t)))
            (Runs-pure _ t),
        q,
      )
  redis_call-Runs (ask id) r m h =
      let n = score_from_state (memory_state m id) in
      (
        r,
        Runs-bind _ _ r r r n _
            (Runs-bind _ _ r r r (memory_state m id) _ (load-Runs r m id h) (Runs-pure n r))
            (Runs-pure _ r),
        h,
      )
  redis_call-Runs (clear id) r m h = (
    redis_del id r,
    Runs-bind _ _ r _ _ tt _ (Runs-writes reset_failed (redis_del id) r) (Runs-pure none _),
    redis_del-Represents r m id h,
  )

  redis_calls-Runs :
      (cs : List Call) (r : Redis Bytes) (m : Memory)
      → Represents json r m
      → (t : Redis Bytes) × Runs (redis_calls json cs) r (memory_calls cs m).0 t
        × Represents json t (memory_calls cs m).1
  unfolding redis_calls memory_calls
  redis_calls-Runs [] r m h = (r, Runs-pure [] r, h)
  redis_calls-Runs (c ∷ cs) r m h =
      let (t, p, q) = redis_call-Runs c r m h in
      let (u, p', q') = redis_calls-Runs cs t (memory_call c m).1 q in
      (u, Runs-bind _ _ r t u _ _ p (Runs-bind _ _ t u u _ _ p' (Runs-pure _ u)), q')

  -- Any sequence of calls, from Redis and from a memory tracker that hold the same states, gives the
  -- same scores on both, and they hold the same states afterwards: when no call to Redis fails, the
  -- encoding can be undone, and no time passes in which an entry could expire.
  pub redis_calls-Refines :
      (cs : List Call) (m : Memory) (d : Session (Redis Bytes))
      → Represents json d.tables m
      → ((n : ℕ) → d.faults n ≡ false)
      → ((redis_calls json cs d).0 ≡ ok (memory_calls cs m).0)
        × Represents json (redis_calls json cs d).1.tables (memory_calls cs m).1
  redis_calls-Refines cs m d h q =
      let (t, p, z) = redis_calls-Runs cs d.tables m h in
      let o = p.at d refl q in
      (o.result, subst (λ u. Represents json u (memory_calls cs m).1) (sym o.tables) z)
