-- ===== src/Gfw/Confidence/Counting.antt =====
-- internal/gfw/confidence.go: the scores that a series of observations of one domain gives.
use domain_lifecycle_deploym.Base.{
  ℕ, suc, ◌≤◌, String, eq_iff, List, [], ◌∷◌, ◌++◌, length, arith, ◌≡◌, refl, sym, ap, ◌∙◌, ◌≢◌,
  leb, if◌then◌else◌, Bool, not, any, count_where, str_eq,
}
use mathlib.Core.List.{append_assoc, append-nil}
use domain_lifecycle_deploym.Gfw.Confidence.State.{
  ConfidenceState, empty_state, is_seen, unique_strings, score_from_state, observed,
}
use domain_lifecycle_deploym.Gfw.Confidence.Strings.{
  unique_strings-append, unique_strings_idem, length-unique_after, times_listed-unique_strings,
  length-unique_strings-le,
}

-- One observation of the same blocking from each of some nodes.
unfoldable pub observed_from : String → List String → ConfidenceState → ConfidenceState
observed_from blocking [] s = s
observed_from blocking (n ∷ ns) s = observed_from blocking ns (observed n blocking s)

-- The score by the table in the source, from the length of the series and whether it names more than
-- one node.
abbrev pub table_score : ℕ → Bool → ℕ
table_score count several =
    if several then (if leb 3 count then 90 else 70) else (if leb 2 count then 50 else 30)

-- Some node of the list is not `n`.
abbrev pub names_other : String → List String → Bool
names_other n ns = any (λ m. not (str_eq m n)) ns

-- How often a node is listed.
abbrev pub times_listed : String → List String → ℕ
times_listed n ns = count_where (str_eq n) ns

-- A series that goes on: each state is written as the state of the series so far.
abbrev pub series : String → List String → ConfidenceState
series blocking ns = record {
  count = length ns;
  unique_nodes = unique_strings ns;
  last_blocking = blocking;
}

length-snoc : (n : String) (ns : List String) → length (ns ++ n ∷ []) ≡ suc (length ns)
length-snoc n [] = refl
length-snoc n (m ∷ ns) = ap suc (length-snoc n ns)

observed-series :
    (blocking n : String) (ns : List String)
    → blocking ≢ ""
    → observed n blocking (series blocking ns) ≡ series blocking (ns ++ n ∷ [])
unfolding observed
observed-series blocking n ns h = ground (
  arith,
  eq_iff blocking "",
  eq_iff blocking blocking,
  length-snoc n ns,
  unique_strings-append ns (n ∷ []),
)

observed_from-series :
    (blocking : String) (ms ns : List String)
    → blocking ≢ ""
    → observed_from blocking ms (series blocking ns) ≡ series blocking (ns ++ ms)
unfolding observed_from
observed_from-series blocking [] ns h = ap (series blocking) (sym (append-nil ns))
observed_from-series blocking (m ∷ ms) ns h =
    ap (observed_from blocking ms) (observed-series blocking m ns h)
    ∙ observed_from-series blocking ms (ns ++ m ∷ []) h
    ∙ ap (series blocking) (append_assoc ns (m ∷ []) ms)

observed-first :
    (blocking n : String)
    → blocking ≢ ""
    → observed n blocking empty_state ≡ series blocking (n ∷ [])
unfolding observed unique_strings
observed-first blocking n h = ground (arith, eq_iff blocking "", eq_iff "" "")

names_other-seen :
    (n : String) (ns : List String) → any (λ s. not (is_seen s (n ∷ []))) ns ≡ names_other n ns
unfolding is_seen any
names_other-seen n [] = refl
names_other-seen n (m ∷ ns) = ground (arith, names_other-seen n ns)

several_nodes :
    (n : String) (ns : List String) → leb 2 (length (unique_strings (n ∷ ns))) ≡ names_other n ns
unfolding unique_strings is_seen any
several_nodes n ns = ground (arith, length-unique_after (n ∷ []) ns, names_other-seen n ns)

-- A series of n ≥ 1 observations of one blocking, on a domain with no history, counts them all, and
-- lists a node once if it is in the series and not at all otherwise; its score is the one of the
-- table: 0.90 for two nodes and three observations, 0.70 for two nodes and two observations, 0.50 for
-- two or more observations of one node, 0.30 for one observation.
pub observed_from-Scores :
    (blocking n m : String) (ns : List String)
    → blocking ≢ ""
    → ((observed_from blocking (n ∷ ns) empty_state).count ≡ suc (length ns))
      × (times_listed m (observed_from blocking (n ∷ ns) empty_state).unique_nodes
          ≡ (if any (str_eq m) (n ∷ ns) then 1 else 0))
      × (score_from_state (observed_from blocking (n ∷ ns) empty_state)
          ≡ table_score (suc (length ns)) (names_other n ns))
unfolding observed_from score_from_state
observed_from-Scores blocking n m ns h =
    let e =
      ap (observed_from blocking ns) (observed-first blocking n h)
      ∙ observed_from-series blocking ns (n ∷ []) h in
    (
      ap (λ s. s.count) e,
      ap (λ s. times_listed m s.unique_nodes) e ∙ times_listed-unique_strings m (n ∷ ns),
      rw e (ground (arith, unique_strings_idem (n ∷ ns), several_nodes n ns)),
    )

-- While the kind of blocking stays the same, one more observation never lowers the score, whichever
-- node it is from, and leaves it between 0.30 and 0.90.
pub observed_rises :
    (node blocking : String) (s : ConfidenceState)
    → blocking ≢ ""
    → s.last_blocking ≡ blocking
    → (score_from_state s ≤ score_from_state (observed node blocking s))
      × (30 ≤ score_from_state (observed node blocking s))
      × (score_from_state (observed node blocking s) ≤ 90)
unfolding score_from_state observed
observed_rises node blocking s h k = ground (
  arith,
  eq_iff blocking "",
  eq_iff blocking s.last_blocking,
  unique_strings_idem (s.unique_nodes ++ node ∷ []),
  length-unique_strings-le s.unique_nodes (node ∷ []),
)
