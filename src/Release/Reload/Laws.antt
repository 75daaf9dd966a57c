-- ===== src/Release/Reload/Laws.antt =====
-- internal/release/dispatcher.go: how often each agent reloads.
use domain_lifecycle_deploym.Base.{
  ℕ, zero, suc, ◌+◌, ◌*◌, ◌%◌, ◌/◌, ◌<◌, ◌≡◌, refl, ap, ◌∙◌, not, ◌&&◌, List, [], ◌∷◌, arith, ◌==◌,
  if◌then◌else◌, count_where,
}
use native.Mathlib.Nat.{div-add-mod, mod-lt, div-eq_of_lt-le, div-eq_of_lt}
use native.Mathlib.Decide.{dec_lt}
use domain_lifecycle_deploym.Release.Tables.{HostGroup}
use domain_lifecycle_deploym.Release.Reload.{
  DispatchItem, for_agent, tasks_of, batch_size, do_reload, mark, mark_from, apply_reload_batching,
}

-- The items of the agent that will reload nginx.
abbrev pub reloads_of : ℕ → List DispatchItem → ℕ
reloads_of agent = count_where (λ it. for_agent agent it && not it.envelope.defer_reload)

-- Reload points among positions `pos`, …, `pos + n - 1` of `total`.
points : ℕ → ℕ → ℕ → ℕ → ℕ
points batch total pos zero = 0
points batch total pos (suc n) =
    let rest = points batch total (suc pos) n in
    if do_reload batch total pos then suc rest else rest

mark_agent : (b t p : ℕ) (it : DispatchItem) → (mark b t p it).agent_db_id ≡ it.agent_db_id
unfolding mark
mark_agent b t p it = ground arith

mark_defers :
    (b t p : ℕ) (it : DispatchItem)
    → 1 < t
    → (mark b t p it).envelope.defer_reload ≡ not (do_reload b t p)
unfolding mark
mark_defers b t p it h = ground arith

reloads-mark_from :
    (groups : List HostGroup) (all : List DispatchItem) (a : ℕ) (seen : ℕ → ℕ)
    (rest : List DispatchItem)
    → 1 < tasks_of a all
    → reloads_of a (mark_from groups all seen rest)
      ≡ points (batch_size groups all a) (tasks_of a all) (seen a) (tasks_of a rest)
unfolding mark_from points count_where
reloads-mark_from groups all a seen [] h = refl
reloads-mark_from groups all a seen (it ∷ rest) h = ground (
  arith,
  reloads-mark_from groups all a (λ x. if x == it.agent_db_id then suc (seen x) else seen x) rest h,
  mark_agent (batch_size groups all it.agent_db_id) (tasks_of it.agent_db_id all)
      (seen it.agent_db_id) it,
  mark_defers (batch_size groups all a) (tasks_of a all) (seen a) it h,
)

points_unbatched : (t p n : ℕ) → p + n ≡ t → points 0 t p n ≡ (if n == 0 then 0 else 1)
unfolding points do_reload
points_unbatched t p zero h = refl
points_unbatched t p (suc n) h = ground (arith, points_unbatched t (suc p) n)

-- ⌈t / b⌉.
abbrev pub ceil_div : ℕ → ℕ → ℕ
ceil_div t b = if t % b == 0 then t / b else t / b + 1

div_parts : (b q r : ℕ) → r < b → ((b * q + r) / b ≡ q) × ((b * q + r) % b ≡ r)
div_parts b q r h =
    let quotient = div-eq_of_lt-le {k = q} b {m = b * q + r} (omega arith) (omega arith) in
    (quotient, omega (arith, div-add-mod (b * q + r) b, ap (λ (x : ℕ). b * x) quotient))

div_step : (b p : ℕ) → 0 < b → (p + 1) / b ≡ (if (p + 1) % b == 0 then p / b + 1 else p / b)
div_step b p h = elim (dec_lt (p % b + 1) b) [
  | yes inside ↦
      let same : p + 1 ≡ b * (p / b) + (p % b + 1) = omega (arith, div-add-mod p b) in
      let parts = div_parts b (p / b) (p % b + 1) inside in
      rw same (rw (parts.0, parts.1) (ground arith))
  | no over ↦
      let same : p + 1 ≡ b * (p / b + 1) + 0 = omega (arith, div-add-mod p b, mod-lt p h) in
      let parts = div_parts b (p / b + 1) 0 h in rw same (rw (parts.0, parts.1) (ground arith))
]

points_batched :
    (b t p n : ℕ)
    → 0 < b
    → p + n ≡ t
    → p / b + points b t p n ≡ (if n == 0 then p / b else ceil_div t b)
unfolding points do_reload
points_batched b t p zero hb h = omega arith
points_batched b t p (suc n) hb h = ground (arith, points_batched b t (suc p) n hb, div_step b p hb)

all_points : (b t : ℕ) → 1 < t → points b t 0 t ≡ (if b == 0 then 1 else ceil_div t b)
all_points zero t h = ground (arith, points_unbatched t 0 t)
all_points (suc b) t h =
    ground (arith, points_batched (suc b) t 0 t, div-eq_of_lt {n = 0} {m = suc b})

-- Of an agent with more than one task, exactly one task reloads nginx when the batch size of its host
-- group is 0 or unknown, and otherwise one task for each batch, a last short batch included.
pub reloads-apply_reload_batching :
    (items : List DispatchItem) (groups : List HostGroup) (agent : ℕ)
    → 1 < tasks_of agent items
    → let b = batch_size groups items agent in
      reloads_of agent (apply_reload_batching items groups)
      ≡ (if b == 0 then 1 else ceil_div (tasks_of agent items) b)
unfolding apply_reload_batching
reloads-apply_reload_batching items groups agent h =
    let b = batch_size groups items agent in
    let t = tasks_of agent items in
    reloads-mark_from groups items agent (λ a. 0) items h ∙ all_points b t h
