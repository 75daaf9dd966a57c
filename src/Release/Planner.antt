-- ===== src/Release/Planner.antt =====
-- internal/release/planner.go: splitting the domains of a release into shards. A map from
-- host group to domain IDs is an association list; its keys are sorted before they are used,
-- so the order of iteration over the map does not matter.
pub mod Members
pub mod Partition
pub mod Shards
use domain_lifecycle_deploym.Base.{
  ℕ, zero, suc, String, Option, none, some, List, [], ◌∷◌, ◌++◌, map, ◌==◌, leb, ltb, length,
  if◌then◌else◌, sort_by,
}

pub record DomainPlanInput : Type 0 where
  pub id : ℕ
  pub host_group_id : Option ℕ

pub record PlannedShard : Type 0 where
  pub shard_index : ℕ
  pub domain_ids : List ℕ
  pub host_group_id : Option ℕ

pub record Grouping : Type 0 where
  pub groups : List (ℕ × List ℕ)
  pub no_group : List ℕ

-- `groups[hg] = append(groups[hg], id)`.
pub add_to_group : ℕ → ℕ → List (ℕ × List ℕ) → List (ℕ × List ℕ)
add_to_group hg id [] = (hg, id ∷ []) ∷ []
add_to_group hg id ((k, ids) ∷ rest) =
    if k == hg then (k, ids ++ id ∷ []) ∷ rest else (k, ids) ∷ add_to_group hg id rest

-- `groups[hg]`, nil for a missing key.
pub group_ids : ℕ → List (ℕ × List ℕ) → List ℕ
group_ids hg [] = []
group_ids hg ((k, ids) ∷ rest) = if k == hg then ids else group_ids hg rest

pub keys : List (ℕ × List ℕ) → List ℕ
keys [] = []
keys ((k, ids) ∷ rest) = k ∷ keys rest

-- `d.HostGroupID != nil && *d.HostGroupID > 0`.
abbrev pub real_group : Option ℕ → Option ℕ
real_group none = none
real_group (some zero) = none
real_group (some (suc g)) = some (suc g)

place : Option ℕ → ℕ → Grouping → Grouping
place none id g = record g { no_group = g.no_group ++ id ∷ [] }
place (some hg) id g = record g { groups = add_to_group hg id g.groups }

pub collect : List DomainPlanInput → Grouping → Grouping
unfolding place
collect [] g = g
collect (d ∷ ds) g = collect ds (place (real_group d.host_group_id) d.id g)

pub shards_from : ℕ → List ℕ → List (ℕ × List ℕ) → List PlannedShard
shards_from i [] groups = []
shards_from i (hg ∷ hgs) groups =
    record { shard_index = i; domain_ids = group_ids hg groups; host_group_id = some hg }
    ∷ shards_from (suc i) hgs groups

-- The domains with no host group, in a last shard of their own.
pub default_shard : ℕ → List ℕ → List PlannedShard
default_shard i [] = []
default_shard i (id ∷ ids) =
    record { shard_index = i; domain_ids = id ∷ ids; host_group_id = none } ∷ []

pub or_one_empty : List PlannedShard → List PlannedShard
or_one_empty [] = record { shard_index = 0; domain_ids = []; host_group_id = none } ∷ []
or_one_empty (s ∷ ss) = s ∷ ss

pub sorted_keys : List (ℕ × List ℕ) → List ℕ
sorted_keys groups = sort_by leb (keys groups)

abbrev empty_grouping : Grouping
empty_grouping = record { groups = []; no_group = [] }

pub assemble : Grouping → List PlannedShard
unfolding or_one_empty default_shard shards_from sorted_keys
assemble g =
    let shards = shards_from 0 (sorted_keys g.groups) g.groups in
    or_one_empty (shards ++ default_shard (length shards) g.no_group)

unfoldable pub plan_by_host_group : List DomainPlanInput → List PlannedShard
unfolding collect assemble group_ids add_to_group keys
plan_by_host_group domains = assemble (collect domains empty_grouping)

-- Every strategy splits by host group.
unfoldable pub plan_shards : String → List DomainPlanInput → List PlannedShard
unfolding plan_by_host_group
plan_shards strategy domains = plan_by_host_group domains
