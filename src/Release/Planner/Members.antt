-- ===== src/Release/Planner/Members.antt =====
-- internal/release/planner.go: what the map of groups holds after the loop.
use domain_lifecycle_deploym.Base.{
  ℕ, zero, suc, ◌+◌, ◌≡◌, refl, Bool, true, false, ◌||◌, Option, none, some, List, [], ◌∷◌, ◌++◌,
  arith, ◌==◌, leb, if◌then◌else◌, count_where, sort_by, insert_by,
}
use mathlib.Core.List.{append-nil, append_assoc}
use domain_lifecycle_deploym.Release.Planner.{
  DomainPlanInput, Grouping, add_to_group, group_ids, keys, real_group, place, collect,
  empty_grouping,
}

abbrev pub is_group : ℕ → Option ℕ → Bool
is_group g none = false
is_group g (some h) = h == g

-- The reference: the domains of one host group, in the order in which they came.
unfoldable pub members : ℕ → List DomainPlanInput → List ℕ
members g [] = []
members g (d ∷ ds) =
    let rest = members g ds in if is_group g (real_group d.host_group_id) then d.id ∷ rest else rest

abbrev pub ungrouped : Option ℕ → Bool
ungrouped none = true
ungrouped (some h) = false

-- The reference: the domains with no host group, in the order in which they came.
unfoldable pub leftover : List DomainPlanInput → List ℕ
leftover [] = []
leftover (d ∷ ds) =
    let rest = leftover ds in if ungrouped (real_group d.host_group_id) then d.id ∷ rest else rest

group_ids-add_to_group :
    (g h id : ℕ) (gs : List (ℕ × List ℕ))
    → group_ids g (add_to_group h id gs)
      ≡ (if h == g then group_ids g gs ++ id ∷ [] else group_ids g gs)
unfolding group_ids add_to_group
group_ids-add_to_group g h id [] = ground arith
group_ids-add_to_group g h id ((k, ids) ∷ rest) = ground (arith, group_ids-add_to_group g h id rest)

place-members :
    (g : ℕ) (o : Option ℕ) (id : ℕ) (acc : Grouping)
    → group_ids g (place o id acc).groups
      ≡ (if is_group g o then group_ids g acc.groups ++ id ∷ [] else group_ids g acc.groups)
unfolding place
place-members g none id acc = refl
place-members g (some h) id acc = group_ids-add_to_group g h id acc.groups

collect-members_from :
    (g : ℕ) (ds : List DomainPlanInput) (acc : Grouping)
    → group_ids g (collect ds acc).groups ≡ group_ids g acc.groups ++ members g ds
unfolding collect members
collect-members_from g [] acc = ground (arith, append-nil (group_ids g acc.groups))
collect-members_from g (d ∷ ds) acc =
    let o = real_group d.host_group_id in
    let acc' = place o d.id acc in
    ground (
      arith,
      collect-members_from g ds acc',
      place-members g o d.id acc,
      append_assoc (group_ids g acc.groups) (d.id ∷ []) (members g ds),
    )

collect-leftover_from :
    (ds : List DomainPlanInput) (acc : Grouping)
    → (collect ds acc).no_group ≡ acc.no_group ++ leftover ds
unfolding collect leftover place
collect-leftover_from [] acc = ground (arith, append-nil acc.no_group)
collect-leftover_from (d ∷ ds) acc =
    let o = real_group d.host_group_id in
    ground (
      arith,
      collect-leftover_from ds (place o d.id acc),
      append_assoc acc.no_group (d.id ∷ []) (leftover ds),
    )

pub group_ids-collect :
    (g : ℕ) (ds : List DomainPlanInput)
    → group_ids g (collect ds empty_grouping).groups ≡ members g ds
unfolding group_ids
group_ids-collect g ds = collect-members_from g ds empty_grouping

pub no_group-collect :
    (ds : List DomainPlanInput) → (collect ds empty_grouping).no_group ≡ leftover ds
no_group-collect ds = collect-leftover_from ds empty_grouping

-- How often a number stands in a list.
abbrev pub count : ℕ → List ℕ → ℕ
count a = count_where (λ x. x == a)

pub count-append : (a : ℕ) (xs ys : List ℕ) → count a (xs ++ ys) ≡ count a xs + count a ys
unfolding count_where
count-append a [] ys = omega arith
count-append a (x ∷ xs) ys = ground (arith, count-append a xs ys)

count-insert_by : (a x : ℕ) (xs : List ℕ) → count a (insert_by leb x xs) ≡ count a (x ∷ xs)
unfolding insert_by count_where
count-insert_by a x [] = refl
count-insert_by a x (y ∷ ys) = ground (arith, count-insert_by a x ys)

pub count-sort_by : (a : ℕ) (xs : List ℕ) → count a (sort_by leb xs) ≡ count a xs
unfolding sort_by count_where
count-sort_by a [] = refl
count-sort_by a (x ∷ xs) = ground (arith, count-insert_by a x (sort_by leb xs), count-sort_by a xs)

abbrev pub at_least_once : ℕ → ℕ
at_least_once zero = 1
at_least_once (suc n) = suc n

count-keys-add_to_group :
    (g h id : ℕ) (gs : List (ℕ × List ℕ))
    → count g (keys (add_to_group h id gs))
      ≡ (if h == g then at_least_once (count g (keys gs)) else count g (keys gs))
unfolding keys add_to_group count_where
count-keys-add_to_group g h id [] = ground arith
count-keys-add_to_group g h id ((k, ids) ∷ rest) =
    ground (arith, count-keys-add_to_group g h id rest)

count-keys-place :
    (g : ℕ) (o : Option ℕ) (id : ℕ) (acc : Grouping)
    → count g (keys (place o id acc).groups) ≡ (
        if is_group g o
        then at_least_once (count g (keys acc.groups))
        else count g (keys acc.groups))
unfolding place
count-keys-place g none id acc = refl
count-keys-place g (some h) id acc = count-keys-add_to_group g h id acc.groups

-- Some domain asks for the host group.
unfoldable pub asked_for : ℕ → List DomainPlanInput → Bool
asked_for g [] = false
asked_for g (d ∷ ds) = is_group g (real_group d.host_group_id) || asked_for g ds

count-keys-collect_from :
    (g : ℕ) (ds : List DomainPlanInput) (acc : Grouping)
    → count g (keys (collect ds acc).groups) ≡ (
        if asked_for g ds
        then at_least_once (count g (keys acc.groups))
        else count g (keys acc.groups))
unfolding collect asked_for
count-keys-collect_from g [] acc = refl
count-keys-collect_from g (d ∷ ds) acc =
    let o = real_group d.host_group_id in
    ground (arith, count-keys-collect_from g ds (place o d.id acc), count-keys-place g o d.id acc)

-- Each host group that is asked for is a key once, and no other number is a key.
pub count-keys-collect :
    (g : ℕ) (ds : List DomainPlanInput)
    → count g (keys (collect ds empty_grouping).groups) ≡ (if asked_for g ds then 1 else 0)
unfolding keys count_where
count-keys-collect g ds = count-keys-collect_from g ds empty_grouping
