-- ===== src/Release/Planner/Partition.antt =====
-- internal/release/planner.go: the shards are the host groups in ascending order, each with its
-- own domains, and between them they hold every domain once.
use domain_lifecycle_deploym.Base.{
  ℕ, suc, ◌+◌, ◌≡◌, refl, ap, true, Option, none, some, List, [], ◌∷◌, ◌++◌, arith, ◌==◌,
  if◌then◌else◌, String, count_where, length,
}
use domain_lifecycle_deploym.Release.Planner.{
  DomainPlanInput, PlannedShard, group_ids, keys, real_group, collect, empty_grouping, shards_from,
  default_shard, or_one_empty, sorted_keys, assemble, plan_shards,
}
use domain_lifecycle_deploym.Release.Planner.Members.{
  members, ungrouped, leftover, group_ids-collect, no_group-collect, count, count-append,
  count-sort_by, asked_for, count-keys-collect,
}

-- All domain IDs of some shards, in order.
unfoldable pub shard_domains : List PlannedShard → List ℕ
shard_domains [] = []
shard_domains (s ∷ ss) = s.domain_ids ++ shard_domains ss

abbrev pub ids : List DomainPlanInput → List ℕ
ids [] = []
ids (d ∷ ds) = d.id ∷ ids ds

-- How often `a` stands in the groups `ks`.
total : ℕ → List ℕ → List DomainPlanInput → ℕ
total a [] ds = 0
total a (k ∷ ks) ds = count a (members k ds) + total a ks ds

abbrev hits : Option ℕ → List ℕ → ℕ
hits none ks = 0
hits (some g) ks = count g ks

total-cons :
    (a : ℕ) (ks : List ℕ) (d : DomainPlanInput) (ds : List DomainPlanInput)
    → total a ks (d ∷ ds)
      ≡ (if d.id == a then hits (real_group d.host_group_id) ks else 0) + total a ks ds
unfolding total members count_where
total-cons a [] d ds = ground arith
total-cons a (k ∷ ks) d ds = ground (arith, total-cons a ks d ds)

total-nil : (a : ℕ) (ks : List ℕ) → total a ks [] ≡ 0
unfolding total members count_where
total-nil a [] = refl
total-nil a (k ∷ ks) = omega (arith, total-nil a ks)

-- Every group that `ds` asks for stands in `ks` once.
abbrev Covers : List ℕ → List DomainPlanInput → Type 0
Covers ks ds = (g : ℕ) → asked_for g ds ≡ true → count g ks ≡ 1

Covers-tail :
    (ks : List ℕ) (d : DomainPlanInput) (ds : List DomainPlanInput)
    → Covers ks (d ∷ ds)
    → Covers ks ds
unfolding asked_for
Covers-tail ks d ds c g h = c g (ground arith)

hits-Covers :
    (ks : List ℕ) (d : DomainPlanInput) (ds : List DomainPlanInput) (o : Option ℕ)
    → real_group d.host_group_id ≡ o
    → Covers ks (d ∷ ds)
    → hits o ks ≡ (if ungrouped o then 0 else 1)
unfolding asked_for
hits-Covers ks d ds none e c = refl
hits-Covers ks d ds (some g) e c = c g (ground arith)

count-total :
    (a : ℕ) (ks : List ℕ) (ds : List DomainPlanInput)
    → Covers ks ds
    → total a ks ds + count a (leftover ds) ≡ count a (ids ds)
unfolding leftover count_where
count-total a ks [] c = omega (arith, total-nil a ks)
count-total a ks (d ∷ ds) c = ground (
  arith,
  total-cons a ks d ds,
  count-total a ks ds (Covers-tail ks d ds c),
  hits-Covers ks d ds (real_group d.host_group_id) refl c,
)

shard_domains-append :
    (a : ℕ) (ss ts : List PlannedShard)
    → count a (shard_domains (ss ++ ts)) ≡ count a (shard_domains ss) + count a (shard_domains ts)
unfolding shard_domains count_where
shard_domains-append a [] ts = omega arith
shard_domains-append a (s ∷ ss) ts = omega (
  arith,
  shard_domains-append a ss ts,
  count-append a s.domain_ids (shard_domains (ss ++ ts)),
  count-append a s.domain_ids (shard_domains ss),
)

shard_domains-or_one_empty :
    (ss : List PlannedShard) → shard_domains (or_one_empty ss) ≡ shard_domains ss
unfolding shard_domains or_one_empty
shard_domains-or_one_empty [] = refl
shard_domains-or_one_empty (s ∷ ss) = refl

count-default_shard :
    (a i : ℕ) (xs : List ℕ) → count a (shard_domains (default_shard i xs)) ≡ count a xs
unfolding shard_domains default_shard count_where
count-default_shard a i [] = refl
count-default_shard a i (x ∷ xs) = omega (arith, count-append a (x ∷ xs) [])

count-shards_from :
    (a i : ℕ) (ks : List ℕ) (ds : List DomainPlanInput)
    → count a (shard_domains (shards_from i ks (collect ds empty_grouping).groups)) ≡ total a ks ds
unfolding shard_domains shards_from total count_where
count-shards_from a i [] ds = refl
count-shards_from a i (k ∷ ks) ds =
    let gs = (collect ds empty_grouping).groups in
    omega (
      arith,
      count-shards_from a (suc i) ks ds,
      ap (count a) (group_ids-collect k ds),
      count-append a (group_ids k gs) (shard_domains (shards_from (suc i) ks gs)),
    )

keys-Covers :
    (ds : List DomainPlanInput) → Covers (sorted_keys (collect ds empty_grouping).groups) ds
unfolding sorted_keys
keys-Covers ds g h =
    let gs = (collect ds empty_grouping).groups in
    ground (arith, count-sort_by g (keys gs), count-keys-collect g ds)

-- Whatever the strategy, the shards of a plan hold between them every domain of the input as
-- often as the input does: no domain is dropped, and none is deployed by two shards.
pub plan_shards-count :
    (strategy : String) (ds : List DomainPlanInput) (a : ℕ)
    → count a (shard_domains (plan_shards strategy ds)) ≡ count a (ids ds)
unfolding plan_shards assemble
plan_shards-count strategy ds a =
    let g = collect ds empty_grouping in
    let ks = sorted_keys g.groups in
    let ss = shards_from 0 ks g.groups in
    let last = default_shard (length ss) g.no_group in
    omega (
      arith,
      ap (count a) (shard_domains-or_one_empty (ss ++ last)),
      shard_domains-append a ss last,
      count-shards_from a 0 ks ds,
      count-default_shard a (length ss) g.no_group,
      ap (count a) (no_group-collect ds),
      count-total a ks ds (keys-Covers ds),
    )
