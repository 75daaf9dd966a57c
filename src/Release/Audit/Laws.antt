-- ===== src/Release/Audit/Laws.antt =====
-- What `release_state_history` and the statuses say after any sequence of operations.
use mathlib.Core.List.{append-nil, append_assoc}
use domain_lifecycle_deploym.Base.{
  ℕ, ◌≡◌, refl, sym, ◌∙◌, ap, String, Bool, true, false, Option, none, some, List, [], ◌∷◌, ◌++◌,
  arith, ◌==◌, if◌then◌else◌, Bool-cases, inl, inr, ==→eq, ==_refl, subst,
}
use domain_lifecycle_deploym.Base.Graph.{Walk, Walk-snoc}
use domain_lifecycle_deploym.Base.Exec.{Session}
use domain_lifecycle_deploym.Base.Follows.{
  Star, here, next, one, Star-trans, Follows, Follows-ignore,
}
use domain_lifecycle_deploym.Release.Tables.{HistoryRow, Tables, Reason, Actor}
use domain_lifecycle_deploym.Release.Graph.{can_release_transition}
use domain_lifecycle_deploym.Release.Effects.{
  Effect, quiet, move, created, logged, lookup_status, set_status, statuses, audit_row,
}
use domain_lifecycle_deploym.Release.Effects.Operations.{
  create_release-Effect, plan-Effect, mark_ready-Effect, dispatch_shard-Effect, finalize-Effect,
  pause-Effect, cancel-Effect, resume-Effect, rollback-Effect, execute_rollback-Effect,
}
use domain_lifecycle_deploym.Release.Audit.{
  trail, Audited, Consistent, Step, operation, elsewhere, Operation, perform, creates, plans,
  marks_ready, dispatches, finalizes, pauses, cancels, resumes, rolls_back, executes_rollback,
}
use domain_lifecycle_deploym.Release.Audit.Steps.{
  trail-append, Below-mono, Below-append, set_status-Below, lookup-append, lookup-set_same,
  lookup-set_other,
}

module _ (digest : String → ℕ → ℕ → String) (presign : String → String → Option String) where
  perform-Effect : (o : Operation) → Follows Effect (perform digest presign o)
  unfolding perform
  perform-Effect (creates i nanos) = Follows-ignore _ (create_release-Effect digest i nanos)
  perform-Effect (plans id strategy) = plan-Effect id strategy
  perform-Effect (marks_ready id artifact) = mark_ready-Effect id artifact
  perform-Effect (dispatches id shard) = dispatch_shard-Effect presign id shard
  perform-Effect (finalizes p) = finalize-Effect p
  perform-Effect (pauses id reason by) = pause-Effect id reason by
  perform-Effect (cancels id reason by) = cancel-Effect id reason by
  perform-Effect (resumes id by) = resume-Effect id by
  perform-Effect (rolls_back id reason by) = rollback-Effect id reason by
  perform-Effect (executes_rollback id artifact by n) = execute_rollback-Effect id artifact by n

  Step-Effect : (d e : Session Tables) → Step digest presign d e → Star Effect d.tables e.tables
  Step-Effect d _ (operation o) = (perform-Effect o).at d
  Step-Effect d _ (elsewhere t s h n) = one (quiet s h (rw n (omega arith)))

  pub Steps-Effect :
      (d e : Session Tables) → Star (Step digest presign) d e → Star Effect d.tables e.tables
  Steps-Effect d _ here = here
  Steps-Effect d e (next {t = c} p q) = Star-trans (Steps-Effect d c p) (Step-Effect c e q)

trail-row :
    (id k : ℕ) (from to : String) (reason : Reason) (by : Actor) (hs : List HistoryRow)
    → trail k (hs ++ audit_row id (some from) to reason by ∷ [])
      ≡ trail k hs ++ (if id == k then (from, to) ∷ [] else [])
unfolding trail
trail-row id k from to reason by hs =
    rw (trail-append k hs (audit_row id (some from) to reason by ∷ [])) refl

trail-created :
    (id k : ℕ) (to : String) (reason : Reason) (by : Actor) (hs : List HistoryRow)
    → trail k (hs ++ audit_row id none to reason by ∷ []) ≡ trail k hs
unfolding trail
trail-created id k to reason by [] = ground arith
trail-created id k to reason by (h ∷ hs) = ground (arith, trail-created id k to reason by hs)

fresh-Audited :
    (o : Option String) (b : Bool) (es : List (String × String))
    → Audited o es
    → Audited (elim o [ none ↦ if b then some "pending" else none | some s ↦ some s ]) es
fresh-Audited none true es h = rw h refl
fresh-Audited none false es h = h
fresh-Audited (some s) b es h = h

created-Audited :
    (n k : ℕ) (ss : List (ℕ × String)) (es : List (String × String))
    → Audited (lookup_status k ss) es
    → Audited (lookup_status k (ss ++ (n, "pending") ∷ [])) es
unfolding lookup_status
created-Audited n k ss es h =
    rw (lookup-append k ss ((n, "pending") ∷ [])) (fresh-Audited (lookup_status k ss) (n == k) es h)

move-Audited :
    (id k : ℕ) (from to : String) (ss : List (ℕ × String)) (es : List (String × String))
    → lookup_status id ss ≡ some from
    → can_release_transition from to ≡ true
    → Audited (lookup_status k ss) es
    → Audited
        (lookup_status k (set_status id to ss))
        (es ++ (if id == k then (from, to) ∷ [] else []))
move-Audited id k from to ss es l c h = elim (Bool-cases (id == k)) [
  | inl q ↦
      rw (sym (==→eq id k q), ==_refl id, lookup-set_same id to from ss l)
        (Walk-snoc can_release_transition "pending" from to es
          (subst (λ o. Audited o es) (ap (λ j. lookup_status j ss) (sym (==→eq id k q)) ∙ l) h) c)
  | inr q ↦ rw (q, lookup-set_other id k to ss (ground arith), append-nil es) h
]

Effect-Consistent : (s t : Tables) → Effect s t → Consistent s → Consistent t
Effect-Consistent s t (quiet e h n) c = record {
  ids_below = rw e (Below-mono _ _ _ n c.ids_below);
  audited = λ k. rw (e, h) (c.audited k);
}
Effect-Consistent s t (move id from to reason by l g e h n) c = record {
  ids_below = rw (e, n) (set_status-Below _ id to _ c.ids_below);
  audited = λ k.
      rw (e, h, trail-row id k from to reason by s.history)
        (move-Audited id k from to _ _ l g (c.audited k));
}
Effect-Consistent s t (created e h n) c = record {
  ids_below = rw (e, n) (Below-append _ "pending" _ c.ids_below);
  audited = λ k. rw (e, h) (created-Audited s.next_id k _ _ (c.audited k));
}
Effect-Consistent s t (logged id reason by e h n) c = record {
  ids_below = rw (e, n) c.ids_below;
  audited = λ k. rw (e, h, trail-created id k "pending" reason by s.history) (c.audited k);
}

pub Effects-Consistent : (s t : Tables) → Star Effect s t → Consistent s → Consistent t
Effects-Consistent s _ here c = c
Effects-Consistent s t (next {t = m} p e) c = Effect-Consistent m t e (Effects-Consistent s m p c)

-- From `x` on, a release's status has moved along edges, each of which the trail has got.
pub record Progress (k : ℕ) (x : String) (s t : Tables) : Type 0 where
  pub status : String
  pub edges : List (String × String)
  pub found : lookup_status k (statuses t) ≡ some status
  pub walk : Walk can_release_transition x edges status
  pub logged_edges : trail k t.history ≡ trail k s.history ++ edges

moved-Progress :
    (k id : ℕ) (x from to : String) (reason : Reason) (by : Actor) (s m t : Tables)
    → lookup_status id (statuses m) ≡ some from
    → can_release_transition from to ≡ true
    → statuses t ≡ set_status id to (statuses m)
    → t.history ≡ m.history ++ audit_row id (some from) to reason by ∷ []
    → Progress k x s m
    → Progress k x s t
moved-Progress k id x from to reason by s m t l g e h p = elim (Bool-cases (id == k)) [
  | inl q ↦
      let same = ==→eq id k q in
      record {
        status = to;
        edges = p.edges ++ (from, to) ∷ [];
        found = rw (e, sym same) (lookup-set_same id to from _ l);
        walk =
            Walk-snoc can_release_transition x from to p.edges
              (subst (λ z. Walk can_release_transition x p.edges z)
                (ground (arith, l, p.found, same)) p.walk)
              g;
        logged_edges =
            rw (h, trail-row id k from to reason by m.history, q, p.logged_edges)
              (append_assoc _ p.edges _);
      }
  | inr q ↦ record {
    status = p.status;
    edges = p.edges;
    found = rw (e, lookup-set_other id k to (statuses m) (ground arith)) p.found;
    walk = p.walk;
    logged_edges =
        rw (h, trail-row id k from to reason by m.history, q, append-nil (trail k m.history))
          p.logged_edges;
  }
]

Effect-Progress :
    (k : ℕ) (x : String) (s m t : Tables) → Effect m t → Progress k x s m → Progress k x s t
Effect-Progress k x s m t (quiet e h n) p = record {
  status = p.status;
  edges = p.edges;
  found = rw e p.found;
  walk = p.walk;
  logged_edges = rw h p.logged_edges;
}
Effect-Progress k x s m t (move id from to reason by l g e h n) p =
    moved-Progress k id x from to reason by s m t l g e h p
Effect-Progress k x s m t (created e h n) p = record {
  status = p.status;
  edges = p.edges;
  found = rw (e, lookup-append k (statuses m) ((m.next_id, "pending") ∷ []), p.found) refl;
  walk = p.walk;
  logged_edges = rw h p.logged_edges;
}
Effect-Progress k x s m t (logged id reason by e h n) p = record {
  status = p.status;
  edges = p.edges;
  found = rw e p.found;
  walk = p.walk;
  logged_edges = rw (h, trail-created id k "pending" reason by m.history) p.logged_edges;
}

pub Effects-Progress :
    (k : ℕ) (x : String) (s t : Tables)
    → Star Effect s t
    → lookup_status k (statuses s) ≡ some x
    → Progress k x s t
Effects-Progress k x s _ here h = record {
  status = x;
  edges = [];
  found = h;
  walk = refl;
  logged_edges = sym (append-nil (trail k s.history));
}
Effects-Progress k x s t (next {t = m} p e) h =
    Effect-Progress k x s m t e (Effects-Progress k x s m p h)
