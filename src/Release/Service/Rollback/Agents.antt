-- ===== src/Release/Service/Rollback/Agents.antt =====
-- internal/release/rollback.go: the agents that ExecuteRollback sends its tasks to.
use domain_lifecycle_deploym.Base.{
  ℕ, ◌+◌, ◌≡◌, refl, sym, ap, ◌∙◌, String, eq_iff, Bool, true, false, not, ◌&&◌, ◌||◌, none, List,
  [], ◌∷◌, ◌==◌, ==→eq, any, select, sort_by, insert_by, count_where, count_where-append, length,
  map, if◌then◌else◌, arith, Bool-cases, inl, inr,
}
use domain_lifecycle_deploym.Base.Exec.{pure, throw, ignore, for_each, query, handle}
use domain_lifecycle_deploym.Base.Runs.{Runs, Runs-reads, Runs-pure, Runs-handle, Runs-else}
use domain_lifecycle_deploym.Base.Ends.{Ends, Ends-Runs, Ends-bind, Ends-pure, Ends-conclude}
use domain_lifecycle_deploym.Release.Tables.{
  AgentTask, Agent, Release, Tables, Actor, rollback_task,
}
use domain_lifecycle_deploym.Release.TaskStore.{
  same_task, task_inserted, new_agent_task, create_agent_task, is_online, lower_agent, joined,
  of_release, list_online_agents,
}
use domain_lifecycle_deploym.Release.Service.Rollback.{
  involved, rollback_envelope, rollback_on, rollback_agents,
}

abbrev pub sent_to : ℕ → AgentTask → Bool
sent_to a t = t.agent_db_id == a

any_same : (a b : ℕ) (seen : List ℕ) → a ≡ b → any (λ c. c == a) seen ≡ any (λ c. c == b) seen
any_same a b seen h = ap (λ z. any (λ c. c == z) seen) h

any-involved :
    (a : ℕ) (seen : List ℕ) (ts : List AgentTask)
    → any (λ b. b == a) (involved seen ts) ≡ (not (any (λ b. b == a) seen) && any (sent_to a) ts)
unfolding involved any
any-involved a seen [] = ground arith
any-involved a seen (t ∷ ts) = ground (
  arith,
  any-involved a seen ts,
  any-involved a (t.agent_db_id ∷ seen) ts,
  any_same a t.agent_db_id seen,
)

any-insert_by {ℓ} :
    {A : Type ℓ} (p : A → Bool) (before : A → A → Bool) (a : A) (xs : List A)
    → any p (insert_by before a xs) ≡ (p a || any p xs)
unfolding any insert_by
any-insert_by p before a [] = refl
any-insert_by p before a (x ∷ xs) = ground (arith, any-insert_by p before a xs)

pub any-sort_by {ℓ} :
    {A : Type ℓ} (p : A → Bool) (before : A → A → Bool) (xs : List A)
    → any p (sort_by before xs) ≡ any p xs
unfolding any sort_by
any-sort_by p before [] = refl
any-sort_by p before (x ∷ xs) =
    any-insert_by p before x (sort_by before xs) ∙ rw (any-sort_by p before xs) refl

-- The rollback tasks of an agent: the task ID names the release and the agent.
abbrev pub rollbacks_for : String → ℕ → Tables → ℕ
rollbacks_for release a t =
    count_where (λ k. same_task k.task_id (rollback_task release a)) t.agent_tasks

any-count : (p : AgentTask → Bool) (ks : List AgentTask) → any p ks ≡ not (count_where p ks == 0)
unfolding any count_where
any-count p [] = refl
any-count p (k ∷ ks) = ground (arith, any-count p ks)

module _ (a : ℕ) (rel : Release) where
  abbrev pub Sent : ℕ → Tables → Type 0
  Sent n t = rollbacks_for rel.release_id a t ≡ n

  abbrev pub one_more : Bool → ℕ → ℕ
  one_more b n = if b && n == 0 then 1 else n

  abbrev task_for : ℕ → ℕ → ℕ → AgentTask
  task_for artifact dt b =
      new_agent_task (rollback_task rel.release_id b) dt b artifact none (rollback_envelope rel)

  -- The unique task ID lets a task in only if the agent has none.
  rollback_on-Runs :
      (artifact dt b : ℕ) (t : Tables)
      → Runs
          (rollback_on rel artifact dt b)
          t
          tt
          (task_inserted
            (task_for artifact dt b)
            t
            (any (λ k. same_task k.task_id (rollback_task rel.release_id b)) t.agent_tasks)).1
  unfolding rollback_on create_agent_task query ignore handle throw pure
  rollback_on-Runs artifact dt b t =
      elim (Bool-cases
        (any (λ k. same_task k.task_id (rollback_task rel.release_id b)) t.agent_tasks)) [
          | inl old ↦ record {
            at = λ d p q. record {
              result = refl;
              tables = rw (q d.calls, p, old) refl;
              no_faults = rw (q d.calls, p, old) q;
            };
          }
          | inr new ↦ record {
            at = λ d p q. record {
              result = refl;
              tables = rw (q d.calls, p, new) refl;
              no_faults = rw (q d.calls, p, new) q;
            };
          }
        ]

  same_rollback :
      (b : ℕ)
      → same_task (rollback_task rel.release_id b) (rollback_task rel.release_id a) ≡ (b == a)
  unfolding same_task
  same_rollback b = ground (arith, eq_iff rel.release_id rel.release_id)

  added :
      (k : AgentTask) (b : ℕ)
      → k.task_id ≡ rollback_task rel.release_id b
      → count_where (λ j. same_task j.task_id (rollback_task rel.release_id a)) (k ∷ [])
        ≡ (if b == a then 1 else 0)
  unfolding count_where
  added k b h = rw (h, same_rollback b) refl

  inserted_count :
      (artifact dt b : ℕ) (t : Tables) (m : Bool)
      → rollbacks_for rel.release_id a (task_inserted (task_for artifact dt b) t m).1 ≡ (
          if not m && b == a
          then rollbacks_for rel.release_id a t + 1
          else rollbacks_for rel.release_id a t)
  inserted_count artifact dt b t true = refl
  inserted_count artifact dt b t false =
      let k = record (task_for artifact dt b) { id = t.next_id } in
      let e = added k b refl in
      count_where-append (λ j. same_task j.task_id (rollback_task rel.release_id a)) t.agent_tasks
        (k ∷ [])
      ∙ rw e (ground arith)

  same_agent :
      (y m : Bool) (n : ℕ)
      → y ≡ true
      → m ≡ not (n == 0)
      → (if not m && y then n + 1 else n) ≡ one_more y n
  same_agent y m n h k = ground (arith, h, k)

  inserted-Sent :
      (artifact dt b : ℕ) (t : Tables) (m : Bool)
      → any (λ k. same_task k.task_id (rollback_task rel.release_id b)) t.agent_tasks ≡ m
      → rollbacks_for rel.release_id a (task_inserted (task_for artifact dt b) t m).1
        ≡ one_more (b == a) (rollbacks_for rel.release_id a t)
  inserted-Sent artifact dt b t m h =
      let n = rollbacks_for rel.release_id a t in
      let some_there =
        any-count (λ j. same_task j.task_id (rollback_task rel.release_id a)) t.agent_tasks in
      elim (Bool-cases (b == a)) [
        | inl y ↦
            inserted_count artifact dt b t m
            ∙ same_agent (b == a) m n y (sym (rw (==→eq b a y) at h) ∙ some_there)
        | inr y ↦ inserted_count artifact dt b t m ∙ ground (arith, y)
      ]

  rollback_on-Sent :
      (artifact dt b n : ℕ)
      → Ends (rollback_on rel artifact dt b) (Sent n) (Sent (one_more (b == a) n))
  rollback_on-Sent artifact dt b n = Ends-Runs _ (λ t p. (
    tt,
    (task_inserted (task_for artifact dt b) t
        (any (λ k. same_task k.task_id (rollback_task rel.release_id b)) t.agent_tasks)).1,
    rollback_on-Runs artifact dt b t,
    inserted-Sent artifact dt b t _ refl ∙ ap (one_more (b == a)) p,
  ))

  pub for_each-Sent :
      (artifact dt n : ℕ) (bs : List ℕ)
      → Ends
          (for_each (rollback_on rel artifact dt) bs)
          (Sent n)
          (Sent (one_more (any (λ b. b == a) bs) n))
  unfolding for_each any
  for_each-Sent artifact dt n [] = Ends-pure tt
  for_each-Sent artifact dt n (b ∷ bs) = Ends-bind _ _ (rollback_on-Sent artifact dt b n) (λ _.
      Ends-conclude _ (λ t p. p ∙ ground arith)
        (for_each-Sent artifact dt (one_more (b == a) n) bs))

-- Where a rollback should go: to the agents with a task of the release, or, when the release has none,
-- to all agents online.
abbrev pub is_target : ℕ → List AgentTask → List Agent → Bool
is_target a rows online =
    if any (λ k. true) rows then any (sent_to a) rows else any (λ g. g.id == a) online

abbrev pub tasks_of_release : ℕ → Tables → List AgentTask
tasks_of_release id t = select (joined (of_release id) t.domain_tasks) t.agent_tasks

any-ids :
    (a : ℕ) (gs : List Agent) → any (λ b. b == a) (map (λ g. g.id) gs) ≡ any (λ g. g.id == a) gs
unfolding any
any-ids a [] = refl
any-ids a (g ∷ gs) = rw (any-ids a gs) refl

some_left : (gs : List Agent) → any (λ g. true) gs ≡ true → (length gs == 0) ≡ false
unfolding any
some_left [] h = absurd (ground arith)
some_left (g ∷ gs) h = ground arith

pub rollback_agents-Runs :
    (a id record_id : ℕ) (by : Actor) (rows : List AgentTask) (t : Tables)
    → (any (λ k. true) rows || any (λ g. true) (select is_online t.agents)) ≡ true
    → (gs : List ℕ) × Runs (rollback_agents id by record_id rows) t gs t
      × (any (λ b. b == a) gs ≡ is_target a rows (select is_online t.agents))
unfolding rollback_agents involved any list_online_agents
rollback_agents-Runs a id record_id by [] t h =
    let online = sort_by lower_agent (select is_online t.agents) in
    let there =
      some_left online (any-sort_by (λ g. true) lower_agent (select is_online t.agents) ∙ h) in
    (
      map (λ g. g.id) online,
      Runs-handle _ _ _ t t t online _ (Runs-reads _ _ t online refl)
          (Runs-else _ _ _ t _ t there (Runs-pure _ t)),
      any-ids a online ∙ any-sort_by (λ g. g.id == a) lower_agent (select is_online t.agents),
    )
rollback_agents-Runs a id record_id by (k ∷ ks) t h = (
  involved [] (k ∷ ks),
  Runs-else (length (involved [] (k ∷ ks)) == 0) _ _ t _ t (ground arith) (Runs-pure _ t),
  any-involved a [] (k ∷ ks),
)
