-- ===== src/Agents/Trails.antt =====
-- internal/agent: the audit trail of each agent over any sequence of calls.
use domain_lifecycle_deploym.Base.{
  ℕ, ◌≤◌, String, Bool, true, false, none, some, List, [], ◌∷◌, ◌++◌, ◌≡◌, refl, sym, subst, arith,
  ◌==◌, any, first, update_where, if◌then◌else◌, Bool-cases, inl, inr, ==→eq, ◌∙◌,
}
use domain_lifecycle_deploym.Base.Graph.{Walk, Walk-snoc}
use domain_lifecycle_deploym.Agents.Graph.{can_agent_transition}
use domain_lifecycle_deploym.Agents.Tables.{AgentRow, AgentStateHistoryRow, AgentTables}
use domain_lifecycle_deploym.Agents.Store.{live_agent, agent_audit_row}

-- The transitions of one agent, in the order of their rows.
unfoldable pub agent_trail : ℕ → List AgentStateHistoryRow → List (String × String)
agent_trail id [] = []
agent_trail id (h ∷ hs) =
    let rest = agent_trail id hs in
    if h.agent_id == id
    then elim h.from_state [ none ↦ rest | some from ↦ (from, h.to_state) ∷ rest ]
    else rest

-- `P` of the status of every row with the id.
abbrev pub EachStatus : ℕ → (String → Type 0) → List AgentRow → Type 0
EachStatus id P [] = Unit
EachStatus id P (a ∷ as') = ((a.id == id) ≡ true → P a.status) × EachStatus id P as'

-- The trail of an agent leads in the graph from "registered" to its status; an id that is not given yet
-- has neither a row nor a trail.
abbrev pub Traced : ℕ → AgentTables → Type 0
Traced id t =
    EachStatus id (Walk can_agent_transition "registered" (agent_trail id t.history)) t.agents
    × (t.next_id ≤ id → (agent_trail id t.history ≡ []) × (any (λ a. a.id == id) t.agents ≡ false))

pub agent_trail-append :
    (id k : ℕ) (from to reason by : String) (hs : List AgentStateHistoryRow)
    → agent_trail id (hs ++ agent_audit_row k from to reason by ∷ [])
      ≡ (if k == id then agent_trail id hs ++ (from, to) ∷ [] else agent_trail id hs)
unfolding agent_trail
agent_trail-append id k from to reason by [] = ground arith
agent_trail-append id k from to reason by (h ∷ hs) =
    ground (arith, agent_trail-append id k from to reason by hs)

-- A change that keeps ids and statuses.
pub EachStatus-kept :
    (id : ℕ) (P : String → Type 0) (p : AgentRow → Bool) (f : AgentRow → AgentRow)
    (as' : List AgentRow)
    → ((a : AgentRow) → (f a).id ≡ a.id)
    → ((a : AgentRow) → (f a).status ≡ a.status)
    → EachStatus id P as'
    → EachStatus id P (update_where p f as')
unfolding update_where
EachStatus-kept id P p f [] i s e = e
EachStatus-kept id P p f (a ∷ as') i s (e, es) = elim (Bool-cases (p a)) [
  | inl y ↦
      rw y ((λ h. subst P (sym (s a)) (e (rw (i a) at h))), EachStatus-kept id P p f as' i s es)
  | inr n ↦ rw n (e, EachStatus-kept id P p f as' i s es)
]

pub any-kept :
    (id : ℕ) (p : AgentRow → Bool) (f : AgentRow → AgentRow) (as' : List AgentRow)
    → ((a : AgentRow) → (f a).id ≡ a.id)
    → any (λ a. a.id == id) (update_where p f as') ≡ any (λ a. a.id == id) as'
unfolding any update_where
any-kept id p f [] i = refl
any-kept id p f (a ∷ as') i = elim (Bool-cases (p a)) [
  | inl y ↦ rw (y, i a, any-kept id p f as' i) refl
  | inr n ↦ rw (n, any-kept id p f as' i) refl
]

EachStatus-first :
    (id : ℕ) (P : String → Type 0) (as' : List AgentRow) (r : AgentRow)
    → first (live_agent id) as' ≡ some r
    → EachStatus id P as'
    → P r.status
unfolding first
EachStatus-first id P [] r h e = absurd (ground arith)
EachStatus-first id P (a ∷ as') r h (e, es) = elim (Bool-cases (live_agent id a)) [
  | inl y ↦
      let same : some a ≡ some r = rw y at h in
      subst (λ o. elim o [ none ↦ Unit | some b ↦ P b.status ]) same (e (ground (arith, y)))
  | inr n ↦ EachStatus-first id P as' r (rw n at h) es
]

first-any :
    (id : ℕ) (as' : List AgentRow) (r : AgentRow)
    → first (live_agent id) as' ≡ some r
    → any (λ a. a.id == id) as' ≡ true
unfolding first any
first-any id [] r h = absurd (ground arith)
first-any id (a ∷ as') r h = ground (arith, first-any id as' r)

abbrev pub to_status : ℕ → String → List AgentRow → List AgentRow
to_status k to = update_where (λ a. a.id == k) (λ a. record a { status = to })

EachStatus-moved :
    (id : ℕ) (P : String → Type 0) (to : String) (as' : List AgentRow)
    → P to
    → EachStatus id P (to_status id to as')
unfolding update_where
EachStatus-moved id P to [] h = tt
EachStatus-moved id P to (a ∷ as') h = elim (Bool-cases (a.id == id)) [
  | inl y ↦ rw y ((λ k. h), EachStatus-moved id P to as' h)
  | inr n ↦ rw n ((λ k. absurd (ground arith)), EachStatus-moved id P to as' h)
]

EachStatus-other :
    (id k : ℕ) (P : String → Type 0) (to : String) (as' : List AgentRow)
    → (k == id) ≡ false
    → EachStatus id P as'
    → EachStatus id P (to_status k to as')
unfolding update_where
EachStatus-other id k P to [] h e = e
EachStatus-other id k P to (a ∷ as') h (e, es) = elim (Bool-cases (a.id == k)) [
  | inl y ↦ rw y ((λ q. absurd (ground arith)), EachStatus-other id k P to as' h es)
  | inr n ↦ rw n (e, EachStatus-other id k P to as' h es)
]

pub EachStatus-append :
    (id : ℕ) (P : String → Type 0) (a : AgentRow) (as' : List AgentRow)
    → ((a.id == id) ≡ true → P a.status)
    → EachStatus id P as'
    → EachStatus id P (as' ++ a ∷ [])
EachStatus-append id P a [] h e = (h, tt)
EachStatus-append id P a (b ∷ as') h (e, es) = (e, EachStatus-append id P a as' h es)

abbrev pub moved : ℕ → String → String → String → String → AgentTables → AgentTables
moved k from to reason by t = record t {
  agents = to_status k to t.agents;
  history = t.history ++ agent_audit_row k from to reason by ∷ [];
}

pub moved-Traced :
    (id k : ℕ) (from to reason by : String) (r : AgentRow) (t : AgentTables)
    → can_agent_transition from to ≡ true
    → first (live_agent k) t.agents ≡ some r
    → r.status ≡ from
    → Traced id t
    → Traced id (moved k from to reason by t)
moved-Traced id k from to reason by r t c f s (e, fresh) =
    let old = agent_trail id t.history in
    let row = agent_trail-append id k from to reason by t.history in
    elim (Bool-cases (k == id)) [
      | inl same ↦
          let there : first (live_agent id) t.agents ≡ some r = rw (==→eq k id same) at f in
          let w : Walk can_agent_transition "registered" old from =
            subst (Walk can_agent_transition "registered" old) s
              (EachStatus-first id _ t.agents r there e) in
          (
            rw (row, same, ==→eq k id same)
                (EachStatus-moved id _ to t.agents
                  (Walk-snoc can_agent_transition "registered" from to old w c)),
            λ h. absurd (ground (arith, (fresh h).1, first-any id t.agents r there)),
          )
      | inr other ↦ (
        rw (row, other) (EachStatus-other id k _ to t.agents other e),
        λ h. (
          rw (row, other) (fresh h).0,
          any-kept id (λ a. a.id == k) _ t.agents (λ a. refl) ∙ (fresh h).1,
        ),
      )
    ]
