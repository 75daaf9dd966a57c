-- ===== src/Release/Reload.antt =====
-- internal/release/dispatcher.go: one nginx reload for many writes on one host.
pub mod Laws
use domain_lifecycle_deploym.Base.{
  ℕ, zero, suc, ◌+◌, ◌%◌, String, Bool, true, false, not, ◌&&◌, ◌||◌, Option, none, some, List, [],
  ◌∷◌, ◌==◌, ltb, leb, if◌then◌else◌, count_where, first,
}
use domain_lifecycle_deploym.Release.Tables.{TaskEnvelope, HostGroup}

pub record DispatchItem : Type 0 where
  pub domain_task_id : ℕ
  pub agent_db_id : ℕ
  pub agent_id : String
  pub host_group_id : Option ℕ
  pub artifact_id : ℕ
  pub artifact_url : String
  pub envelope : TaskEnvelope

abbrev pub for_agent : ℕ → DispatchItem → Bool
for_agent agent it = it.agent_db_id == agent

-- `len(agentIndices[agent])`.
abbrev pub tasks_of : ℕ → List DispatchItem → ℕ
tasks_of agent = count_where (for_agent agent)

abbrev pub is_group : ℕ → HostGroup → Bool
is_group id g = g.id == id

-- `hostGroups[id]`, and its batch size; 0 where the group is unknown.
group_batch : List HostGroup → ℕ → ℕ
group_batch groups id = elim (first (is_group id) groups) [
  | none ↦ 0
  | some g ↦ g.reload_batch_size
]

item_batch : List HostGroup → Option DispatchItem → ℕ
unfolding group_batch
item_batch groups none = 0
item_batch groups (some it) = elim it.host_group_id [ none ↦ 0 | some id ↦ group_batch groups id ]

-- The batch size of an agent is that of the host group of its first item.
unfoldable pub batch_size : List HostGroup → List DispatchItem → ℕ → ℕ
unfolding item_batch
batch_size groups items agent = item_batch groups (first (for_agent agent) items)

-- `isLast || (batchSize > 0 && oneBased%batchSize == 0)`.
pub do_reload : ℕ → ℕ → ℕ → Bool
do_reload batch total pos = (pos + 1 == total) || (ltb 0 batch && (pos + 1) % batch == 0)

-- One item at position `pos` of the `total` items of its agent; a single item is left as it is.
pub mark : ℕ → ℕ → ℕ → DispatchItem → DispatchItem
mark batch total pos it = if leb total 1 then it else record it {
  envelope = record it.envelope { defer_reload = not (do_reload batch total pos) };
}

-- The loops over the agents and over their positions touch each item once: item by item, the
-- position is the number of items of the same agent before it.
pub mark_from : List HostGroup → List DispatchItem → (ℕ → ℕ) → List DispatchItem → List DispatchItem
mark_from groups all seen [] = []
mark_from groups all seen (it ∷ rest) =
    let agent = it.agent_db_id in
    mark (batch_size groups all agent) (tasks_of agent all) (seen agent) it
    ∷ mark_from groups all (λ a. if a == agent then suc (seen a) else seen a) rest

unfoldable pub apply_reload_batching : List DispatchItem → List HostGroup → List DispatchItem
unfolding mark_from mark do_reload batch_size
apply_reload_batching items groups = mark_from groups items (λ a. 0) items
