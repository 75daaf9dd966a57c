-- ===== src/Release/Planner/Shards.antt =====
-- internal/release/planner.go: each shard against the reference.
use domain_lifecycle_deploym.Base.{
  ℕ, suc, ◌+◌, ◌<◌, ◌≤◌, ◌≡◌, refl, sym, Option, none, some, List, [], ◌∷◌, ◌++◌, arith, leb,
  String, length, sort_by, insert_by, count_where,
}
use native.Mathlib.Nat.{le_trans}
use domain_lifecycle_deploym.Release.Planner.{
  DomainPlanInput, PlannedShard, keys, collect, empty_grouping, shards_from, default_shard,
  or_one_empty, sorted_keys, assemble, plan_shards,
}
use domain_lifecycle_deploym.Release.Planner.Members.{
  members, leftover, group_ids-collect, no_group-collect, count, count-sort_by, count-keys-collect,
}

-- A shard of a host group holds the domains of that group, the default shard those with none, in
-- the order of the input.
abbrev pub Holds : List DomainPlanInput → Option ℕ → List ℕ → Type 0
Holds ds none xs = xs ≡ leftover ds
Holds ds (some g) xs = xs ≡ members g ds

-- The shards are numbered from `i`, and each holds its own domains.
abbrev pub Numbered : List DomainPlanInput → ℕ → List PlannedShard → Type 0
Numbered ds i [] = Unit {0}
Numbered ds i (s ∷ ss) =
    (s.shard_index ≡ i) × Holds ds s.host_group_id s.domain_ids × Numbered ds (suc i) ss

shards_from-Numbered :
    (ds : List DomainPlanInput) (i j : ℕ) (ks : List ℕ) (last : List PlannedShard)
    → j ≡ length (shards_from i ks (collect ds empty_grouping).groups) + i
    → Numbered ds j last
    → Numbered ds i (shards_from i ks (collect ds empty_grouping).groups ++ last)
unfolding shards_from
shards_from-Numbered ds i j [] last e h = let p : j ≡ i = omega arith in rw p at h
shards_from-Numbered ds i j (k ∷ ks) last e h =
    (refl, group_ids-collect k ds, shards_from-Numbered ds (suc i) j ks last (omega arith) h)

default_shard-Numbered :
    (ds : List DomainPlanInput) (j : ℕ) (xs : List ℕ)
    → xs ≡ leftover ds
    → Numbered ds j (default_shard j xs)
unfolding default_shard
default_shard-Numbered ds j [] h = tt
default_shard-Numbered ds j (x ∷ xs) h = (refl, h, tt)

-- With no shard at all there is no domain outside a host group either.
leftover-nil :
    (ds : List DomainPlanInput) (ss : List PlannedShard) (j : ℕ) (xs : List ℕ)
    → xs ≡ leftover ds
    → (ss ++ default_shard j xs) ≡ []
    → leftover ds ≡ []
unfolding default_shard
leftover-nil ds [] j [] h e = sym h
leftover-nil ds [] j (x ∷ xs) h e = cc
leftover-nil ds (s ∷ ss) j xs h e = cc

or_one_empty-Numbered :
    (ds : List DomainPlanInput) (ss : List PlannedShard)
    → (ss ≡ [] → leftover ds ≡ [])
    → Numbered ds 0 ss
    → Numbered ds 0 (or_one_empty ss)
unfolding or_one_empty
or_one_empty-Numbered ds [] none_left h = (refl, sym (none_left refl), tt)
or_one_empty-Numbered ds (s ∷ ss) none_left h = h

-- The shards of a plan are numbered from 0 in their order. The shard of a host group holds exactly
-- the domains of that group and the default shard exactly those without one, in input order.
pub plan_shards-Numbered :
    (strategy : String) (ds : List DomainPlanInput) → Numbered ds 0 (plan_shards strategy ds)
unfolding plan_shards assemble
plan_shards-Numbered strategy ds =
    let g = collect ds empty_grouping in
    let ks = sorted_keys g.groups in
    let ss = shards_from 0 ks g.groups in
    let last = default_shard (length ss) g.no_group in
    or_one_empty-Numbered ds (ss ++ last)
      (λ e. leftover-nil ds ss (length ss) g.no_group (no_group-collect ds) e)
      (shards_from-Numbered ds 0 (length ss) ks last (omega arith)
        (default_shard-Numbered ds (length ss) g.no_group (no_group-collect ds)))

abbrev Above : ℕ → List ℕ → Type 0
Above x [] = Unit {0}
Above x (y ∷ ys) = x ≤ y

abbrev Sorted : List ℕ → Type 0
Sorted [] = Unit {0}
Sorted (x ∷ xs) = Above x xs × Sorted xs

Above-insert_by : (x y : ℕ) (ys : List ℕ) → x ≤ y → Above x ys → Above x (insert_by leb y ys)
unfolding insert_by
Above-insert_by x y [] h a = h
Above-insert_by x y (z ∷ zs) h a = ground arith

insert_by-Sorted : (x : ℕ) (xs : List ℕ) → Sorted xs → Sorted (insert_by leb x xs)
unfolding insert_by
insert_by-Sorted x [] h = (tt, tt)
insert_by-Sorted x (y ∷ ys) h = ground (arith, insert_by-Sorted x ys h.1, Above-insert_by y x ys)

sort_by-Sorted : (xs : List ℕ) → Sorted (sort_by leb xs)
unfolding sort_by
sort_by-Sorted [] = tt
sort_by-Sorted (x ∷ xs) = insert_by-Sorted x (sort_by leb xs) (sort_by-Sorted xs)

-- A shard before another: the groups ascend, and the default shard follows them all.
abbrev pub Before : Option ℕ → Option ℕ → Type 0
Before none h = ⊥
Before (some g) none = Unit {0}
Before (some g) (some h) = g < h

abbrev IsDefault : List PlannedShard → Type 0
IsDefault [] = Unit {0}
IsDefault (s ∷ []) = s.host_group_id ≡ none
IsDefault (s ∷ t ∷ ss) = ⊥

-- The host groups of some shards, in order; a shard without one must come last.
abbrev pub Ascending : List PlannedShard → Type 0
Ascending [] = Unit {0}
Ascending (s ∷ []) = Unit {0}
Ascending (s ∷ t ∷ ss) = Before s.host_group_id t.host_group_id × Ascending (t ∷ ss)

count-tail : (a k : ℕ) (ks : List ℕ) → count a ks ≤ count a (k ∷ ks)
unfolding count_where
count-tail a k ks = ground arith

lt_of_count : (k m : ℕ) (ks : List ℕ) → k ≤ m → count k (k ∷ m ∷ ks) ≤ 1 → k < m
unfolding count_where
lt_of_count k m ks h u = ground arith

shards_from-Ascending :
    (i : ℕ) (ks : List ℕ) (gs : List (ℕ × List ℕ)) (last : List PlannedShard)
    → Sorted ks
    → ((a : ℕ) → count a ks ≤ 1)
    → IsDefault last
    → Ascending (shards_from i ks gs ++ last)
unfolding shards_from count_where
shards_from-Ascending i [] gs [] h u d = tt
shards_from-Ascending i [] gs (s ∷ []) h u d = tt
shards_from-Ascending i [] gs (s ∷ t ∷ ss) h u d = absurd d
shards_from-Ascending i (k ∷ []) gs [] h u d = tt
shards_from-Ascending i (k ∷ []) gs (s ∷ []) h u d = (rw d tt, tt)
shards_from-Ascending i (k ∷ []) gs (s ∷ t ∷ ss) h u d = absurd d
shards_from-Ascending i (k ∷ m ∷ ks) gs last h u d =
    (strict, shards_from-Ascending (suc i) (m ∷ ks) gs last h.1 fewer d)
  where
    strict : k < m
    strict = lt_of_count k m ks h.0 (u k)

    fewer : (a : ℕ) → count a (m ∷ ks) ≤ 1
    fewer a = le_trans (count-tail a k (m ∷ ks)) (u a)

default_shard-IsDefault : (j : ℕ) (xs : List ℕ) → IsDefault (default_shard j xs)
unfolding default_shard
default_shard-IsDefault j [] = tt
default_shard-IsDefault j (x ∷ xs) = refl

or_one_empty-Ascending : (ss : List PlannedShard) → Ascending ss → Ascending (or_one_empty ss)
unfolding or_one_empty
or_one_empty-Ascending [] h = tt
or_one_empty-Ascending (s ∷ ss) h = h

count-sorted_keys :
    (ds : List DomainPlanInput) (a : ℕ)
    → count a (sorted_keys (collect ds empty_grouping).groups) ≤ 1
unfolding sorted_keys
count-sorted_keys ds a =
    let gs = (collect ds empty_grouping).groups in
    ground (arith, count-sort_by a (keys gs), count-keys-collect a ds)

-- The shards of a plan go by strictly ascending host group, so no group has two shards, and the
-- default shard, if there is one, stands last.
plan_shards-Ascending :
    (strategy : String) (ds : List DomainPlanInput) → Ascending (plan_shards strategy ds)
unfolding plan_shards assemble sorted_keys
plan_shards-Ascending strategy ds =
    let gs = (collect ds empty_grouping).groups in
    let left = (collect ds empty_grouping).no_group in
    let ks = sorted_keys gs in
    let ss = shards_from 0 ks gs in
    or_one_empty-Ascending (ss ++ default_shard (length ss) left) (
      shards_from-Ascending 0 ks gs (default_shard (length ss) left) (sort_by-Sorted (keys gs))
        (count-sorted_keys ds) (default_shard-IsDefault (length ss) left))
