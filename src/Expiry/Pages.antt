-- ===== src/Expiry/Pages.antt =====
-- internal/domain/expiry.go: the domains that one check reaches.
use domain_lifecycle_deploym.Base.{
  ℕ, zero, suc, ◌+◌, ◌≤◌, String, str_eq, false, Option, none, some, List, [], ◌∷◌, ◌≡◌, refl,
  arith, ◌==◌, any, select, update_where, length, sym, subst, ap, ◌∙◌,
}
use domain_lifecycle_deploym.Base.Exec.{Session}
use domain_lifecycle_deploym.Base.Always.{
  Always, Post, Always-pure, Always-reads, Always-writes, Always-bind, Always-handle, Always-if,
  Always-before, Always-conclude, Always-given,
}
use domain_lifecycle_deploym.Expiry.Status.{compute_expiry_status, status_equal}
use domain_lifecycle_deploym.Expiry.Check.{
  ExpiryRow, ExpiryCheckResult, ExpiryDb, list_failed, update_failed, take, page_limit, first_page,
  status_set, update_expiry_status, list_with_filter, check_dated, check_row, check_rows,
  check_all_expiry, counted_one, add_change, change_of, nothing_checked,
}

length-take-le {ℓ} : {A : Type ℓ} (n : ℕ) (xs : List A) → length (take n xs) ≤ n
unfolding take
length-take-le zero xs = omega arith
length-take-le (suc n) [] = omega arith
length-take-le (suc n) (x ∷ xs) = omega (arith, length-take-le n xs)

length-first_page-le : (rows : List ExpiryRow) → length (first_page 10000 rows) ≤ 200
unfolding first_page page_limit
length-first_page-le rows = length-take-le 200 _

-- The rows with an id.
abbrev pub rows_of : ℕ → List ExpiryRow → List ExpiryRow
rows_of id rows = select (λ d. d.id == id) rows

rows_of-status_set :
    (id j : ℕ) (status : Option String) (rows : List ExpiryRow)
    → (j == id) ≡ false
    → rows_of id (status_set j status rows) ≡ rows_of id rows
unfolding select update_where
rows_of-status_set id j status [] h = refl
rows_of-status_set id j status (d ∷ ds) h = ground (arith, h, rows_of-status_set id j status ds)

module _ (id : ℕ) (vs : List ExpiryRow) where
  abbrev Untouched : List ExpiryRow → Type 0
  Untouched rows = rows_of id rows ≡ vs

  abbrev Within : ℕ → ExpiryCheckResult → List ExpiryRow → Type 0
  Within n r rows = Untouched rows × (r.checked ≤ n)

  update_expiry_status-Untouched :
      (j : ℕ) (status : Option String)
      → (j == id) ≡ false
      → Always (update_expiry_status j status) Untouched (λ _. Untouched) Untouched
  unfolding update_expiry_status
  update_expiry_status-Untouched j status h =
      Always-writes update_failed _ (λ t p. p) (λ t p. rows_of-status_set id j status t h ∙ p)

  -- The rows after this one count at most `m`.
  check_dated-Within :
      (now m : ℕ) (d : ExpiryRow) (expiry : ℕ) (r : ExpiryCheckResult)
      (rest : ExpiryCheckResult → ExpiryDb ExpiryCheckResult)
      → (d.id == id) ≡ false
      → ((s : ExpiryCheckResult) → Always (rest s) Untouched (Within (s.checked + m)) Untouched)
      → Always (check_dated now d expiry r rest) Untouched (Within (r.checked + m)) Untouched
  check_dated-Within now m d expiry r rest h k =
      let status = compute_expiry_status (some expiry) d.grace_end_date now in
      Always-if (status_equal d.expiry_status status) _ _ (λ _. k r)
        (λ _.
          Always-handle _ _ _ (update_expiry_status-Untouched d.id status h) (λ _. k r)
            (λ _. k (add_change (change_of d expiry status) r)))

  check_row-Within :
      (now m : ℕ) (d : ExpiryRow) (o : Option ℕ) (r : ExpiryCheckResult)
      (rest : ExpiryCheckResult → ExpiryDb ExpiryCheckResult)
      → (d.id == id) ≡ false
      → ((s : ExpiryCheckResult) → Always (rest s) Untouched (Within (s.checked + m)) Untouched)
      → Always (check_row now d o r rest) Untouched (Within (r.checked + suc m)) Untouched
  check_row-Within now m d none r rest h k =
      Always-conclude _ (λ s t w. (w.0, omega (arith, w.1))) (k r)
  check_row-Within now m d (some expiry) r rest h k =
      Always-if (str_eq d.lifecycle_state "retired") _ _
        (λ _. Always-conclude _ (λ s t w. (w.0, omega (arith, w.1))) (k r))
        (λ _.
          Always-conclude _ (λ s t w. (w.0, omega (arith, w.1)))
            (check_dated-Within now m d expiry (counted_one r) rest h k))

  check_rows-Within :
      (now : ℕ) (ds : List ExpiryRow) (r : ExpiryCheckResult)
      → any (λ d. d.id == id) ds ≡ false
      → Always (check_rows now ds r) Untouched (Within (r.checked + length ds)) Untouched
  unfolding check_rows any
  check_rows-Within now [] r h = Always-pure r (λ t p. (p, omega arith))
  check_rows-Within now (d ∷ ds) r h =
      check_row-Within now (length ds) d d.expiry_date r (check_rows now ds) (ground (arith, h))
        (λ s. check_rows-Within now ds s (ground (arith, h)))

reached :
    (rows page : List ExpiryRow) (r : ExpiryCheckResult)
    → page ≡ first_page 10000 rows
    → r.checked ≤ 0 + length page
    → r.checked ≤ 200
reached rows page r e h = omega (arith, h, ap length e, length-first_page-le rows)

-- One expiry check, whatever calls fail, counts at most 200 domains, although it asks for 10000; it
-- leaves every row alone whose id is not among the first 200 live ones.
pub check_all_expiry-Bounded :
    (now id : ℕ) (d : Session (List ExpiryRow))
    → any (λ r. r.id == id) (first_page 10000 d.tables) ≡ false
    → Post
        (λ r rows. (rows_of id rows ≡ rows_of id d.tables) × (r.checked ≤ 200))
        (λ rows. rows_of id rows ≡ rows_of id d.tables)
        (check_all_expiry now d).0
        (check_all_expiry now d).1.tables
unfolding check_all_expiry list_with_filter
check_all_expiry-Bounded now id d h =
    let vs = rows_of id d.tables in
    (Always-bind {P = λ rows. rows ≡ d.tables}
        {R = λ page rows. (rows ≡ d.tables) × (page ≡ first_page 10000 d.tables)} _ _
        (Always-reads list_failed _ (λ t e. ap (rows_of id) e)
          (λ t e. (e, ap (first_page 10000) e)))
        (λ page. Always-given {P = λ rows. rows ≡ d.tables} _ (λ e.
          Always-before _ (λ rows k. ap (rows_of id) k)
            (Always-conclude _ (λ r rows w. (w.0, reached d.tables page r e w.1))
              (check_rows-Within id vs now page nothing_checked
                (subst (λ ds. any (λ r. r.id == id) ds ≡ false) (sym e) h)))))).at
      d refl
