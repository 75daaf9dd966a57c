-- ===== src/Release/Audit/Steps.antt =====
-- The steps of `Effect` on the status and the trail of one release.
use domain_lifecycle_deploym.Base.{
  ℕ, suc, ◌≤◌, ◌≡◌, refl, String, false, none, some, List, [], ◌∷◌, ◌++◌, arith, ◌==◌,
}
use domain_lifecycle_deploym.Release.Tables.{HistoryRow}
use domain_lifecycle_deploym.Release.Effects.{lookup_status, set_status}
use domain_lifecycle_deploym.Release.Audit.{trail, Below, below_nil, below_cons}

pub trail-append :
    (id : ℕ) (hs ks : List HistoryRow) → trail id (hs ++ ks) ≡ trail id hs ++ trail id ks
unfolding trail
trail-append id [] ks = refl
trail-append id (h ∷ hs) ks = ground (arith, trail-append id hs ks)

pub Below-mono : (n m : ℕ) (ss : List (ℕ × String)) → n ≤ m → Below n ss → Below m ss
Below-mono n m [] h below_nil = below_nil
Below-mono n m (_ ∷ ss) h (below_cons k b) = below_cons (omega arith) (Below-mono n m ss h b)

pub Below-append :
    (n : ℕ) (s : String) (ss : List (ℕ × String)) → Below n ss → Below (suc n) (ss ++ (n, s) ∷ [])
Below-append n s [] below_nil = below_cons (omega arith) below_nil
Below-append n s (_ ∷ ss) (below_cons k b) = below_cons (omega arith) (Below-append n s ss b)

pub set_status-Below :
    (n id : ℕ) (to : String) (ss : List (ℕ × String)) → Below n ss → Below n (set_status id to ss)
unfolding set_status
set_status-Below n id to [] below_nil = below_nil
set_status-Below n id to (_ ∷ ss) (below_cons k b) = below_cons k (set_status-Below n id to ss b)

pub Below-lookup : (n : ℕ) (ss : List (ℕ × String)) → Below n ss → lookup_status n ss ≡ none
unfolding lookup_status
Below-lookup n [] below_nil = refl
Below-lookup n (_ ∷ ss) (below_cons k b) = ground (arith, Below-lookup n ss b)

pub lookup-append :
    (id : ℕ) (ss ts : List (ℕ × String))
    → lookup_status id (ss ++ ts)
      ≡ elim (lookup_status id ss) [ none ↦ lookup_status id ts | some s ↦ some s ]
unfolding lookup_status
lookup-append id [] ts = refl
lookup-append id ((k, s) ∷ ss) ts = ground (arith, lookup-append id ss ts)

pub lookup-set_same :
    (id : ℕ) (to from : String) (ss : List (ℕ × String))
    → lookup_status id ss ≡ some from
    → lookup_status id (set_status id to ss) ≡ some to
unfolding lookup_status set_status
lookup-set_same id to from [] h = absurd (ground arith)
lookup-set_same id to from ((k, s) ∷ ss) h = ground (arith, lookup-set_same id to from ss)

pub lookup-set_other :
    (id k : ℕ) (to : String) (ss : List (ℕ × String))
    → (k == id) ≡ false
    → lookup_status k (set_status id to ss) ≡ lookup_status k ss
unfolding lookup_status set_status
lookup-set_other id k to [] h = refl
lookup-set_other id k to ((j, s) ∷ ss) h = ground (arith, lookup-set_other id k to ss h)
