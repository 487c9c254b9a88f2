-- ===== src/Store/Claim/Scan.antt =====
-- The paged scan of `claim_next` finds the first compatible row of the whole ordered list, and that
-- row stands in front of every other compatible candidate.
use brunost_judge.Prelude.{
  ℕ, zero, suc, ◌+◌, ◌≤◌, ◌<◌, ◌≡◌, ◌≢◌, refl, sym, ◌∙◌, ap, ◌⊎◌, inl, inr, Bool, true, false,
  Option, none, some, List, [], ◌∷◌, ◌++◌, take, drop, length, take-append-drop, arith,
}
use brunost_judge.Sql.Keys.{Occurs, All-Occurs}
use brunost_judge.Sql.Order.{IsSorted}
use brunost_judge.Store.{Error, Result, ok, err, Execution}
use brunost_judge.Store.Claim.{first_compatible, after_page, scan_pages, page_size}

drop-drop : (m n : ℕ) (xs : List Execution) → drop m (drop n xs) ≡ drop (n + m) xs
drop-drop m zero xs = rw zero_add
  where
    zero_add : 0 + m ≡ m
    zero_add = omega arith
drop-drop m (suc n) [] = drop_nil m (suc n + m)
  where
    drop_nil : (a b : ℕ) → drop a (let e : List Execution = [] in e) ≡ drop b []
    drop_nil zero zero = refl
    drop_nil zero (suc b) = refl
    drop_nil (suc a) zero = refl
    drop_nil (suc a) (suc b) = refl
drop-drop m (suc n) (x ∷ xs) = drop-drop m n xs ∙ ap (λ k. drop k (x ∷ xs)) suc_add
  where
    suc_add : suc (n + m) ≡ suc n + m
    suc_add = omega arith

drop-length-take : (n : ℕ) (xs : List Execution) → drop (length (take n xs)) xs ≡ drop n xs
drop-length-take zero xs = refl
drop-length-take (suc n) [] = refl
drop-length-take (suc n) (x ∷ xs) = drop-length-take n xs

drop_all : (n : ℕ) (xs : List Execution) → length xs ≤ n → drop n xs ≡ []
drop_all zero [] h = refl
drop_all zero (x ∷ xs) h = absurd (omega arith)
drop_all (suc n) [] h = refl
drop_all (suc n) (x ∷ xs) h = drop_all n xs (omega arith)

take_pos : (xs : List Execution) → xs ≢ [] → 1 ≤ length (take page_size xs)
take_pos [] h = absurd (h refl)
take_pos (x ∷ xs) h = omega arith

Test-cases : (r : Result Bool) → ((e : Error) × (r ≡ err e)) ⊎ ((b : Bool) × (r ≡ ok b))
Test-cases (err e) = inl (e, refl)
Test-cases (ok b) = inr (b, refl)

module _ (test : Execution → Result Bool) where
  continue : Result (Option Execution) → Result (Option Execution) → Result (Option Execution)
  continue (err e) rest = err e
  continue (ok none) rest = rest
  continue (ok (some row)) rest = ok (some row)

  first_compatible-append :
      (xs ys : List Execution)
      → first_compatible test (xs ++ ys)
        ≡ continue (first_compatible test xs) (first_compatible test ys)
  unfolding first_compatible continue
  first_compatible-append [] ys = refl
  first_compatible-append (x ∷ xs) ys = ground (arith, first_compatible-append xs ys)

  -- one round: the page, then the rows behind it
  page_then_rest :
      (xs : List Execution)
      → first_compatible test xs
        ≡ continue
            (first_compatible test (take page_size xs))
            (first_compatible test (drop page_size xs))
  page_then_rest xs =
      ap (first_compatible test) (sym (take-append-drop page_size xs))
      ∙ first_compatible-append (take page_size xs) (drop page_size xs)

  after_page-eq-continue :
      (page : List Execution) (next : Result (Option Execution))
      → page ≢ []
      → after_page page (first_compatible test page) next
        ≡ continue (first_compatible test page) next
  unfolding after_page continue
  after_page-eq-continue [] next h = absurd (h refl)
  after_page-eq-continue (x ∷ xs) next h = ground arith

  round :
      (xs : List Execution) (next : Result (Option Execution))
      → (xs ≢ [] → next ≡ first_compatible test (drop page_size xs))
      → after_page (take page_size xs) (first_compatible test (take page_size xs)) next
        ≡ first_compatible test xs
  round [] next h = unfold after_page first_compatible in refl
  round (x ∷ xs) next h =
      after_page-eq-continue (take page_size (x ∷ xs)) next (λ e. cc)
      ∙ ap (continue (first_compatible test (take page_size (x ∷ xs)))) (h (λ e. cc))
      ∙ sym (page_then_rest (x ∷ xs))

  nothing_left : ok none ≡ first_compatible test []
  unfolding first_compatible
  nothing_left = refl

  scan_from :
      (fuel offset : ℕ) (rows : List Execution)
      → length rows < offset + fuel
      → scan_pages fuel test rows offset ≡ first_compatible test (drop offset rows)
  unfolding scan_pages
  scan_from zero offset rows h = rw (drop_all offset rows (omega arith)) nothing_left
  scan_from (suc fuel) offset rows h = round (drop offset rows) _ λ more.
      scan_from fuel (offset + length (take page_size (drop offset rows))) rows
        (omega (arith, progress more))
      ∙ ap (first_compatible test) (
          sym (drop-drop (length (take page_size (drop offset rows))) offset rows)
          ∙ drop-length-take page_size (drop offset rows))
    where
      progress : drop offset rows ≢ [] → 1 ≤ length (take page_size (drop offset rows))
      progress more = take_pos (drop offset rows) more

  -- With one round more than there are rows, the paged scan is the plain scan of all rows.
  pub scan_pages-eq-first_compatible :
      (rows : List Execution)
      → scan_pages (suc (length rows)) test rows 0 ≡ first_compatible test rows
  scan_pages-eq-first_compatible rows = scan_from (suc (length rows)) 0 rows (omega arith)

  -- The row that is found is compatible.
  pub first_compatible-Occurs :
      (rows : List Execution) (row : Execution)
      → first_compatible test rows ≡ ok (some row)
      → Occurs row rows × (test row ≡ ok true)
  unfolding first_compatible
  first_compatible-Occurs [] row h = absurd (cc)
  first_compatible-Occurs (x ∷ xs) row h = elim (Test-cases (test x)) [
    | inl (e, raised) ↦ absurd (ground arith)
    | inr (true, fits) ↦ let same : row ≡ x = ground arith in (inl same, rw same fits)
    | inr (false, unfit) ↦
        let ih = first_compatible-Occurs xs row (ground arith) in (inr ih.0, ih.1)
  ]

  -- In a sorted list no compatible row stands in front of the one that is found.
  pub first_compatible-first :
      (before : Execution → Execution → Bool) (rows : List Execution) (row y : Execution)
      → IsSorted before rows
      → first_compatible test rows ≡ ok (some row)
      → Occurs y rows
      → test y ≡ ok true
      → (y ≡ row) ⊎ (before row y ≡ true)
  unfolding first_compatible
  first_compatible-first before [] row y sorted h o fits = absurd o
  first_compatible-first before (x ∷ xs) row y sorted h (inl same) fits =
      inl (ground (arith, ap test same))
  first_compatible-first before (x ∷ xs) row y sorted h (inr o) fits = elim (Test-cases (test x)) [
    | inl (e, raised) ↦ absurd (ground arith)
    | inr (true, hit) ↦
        let same : row ≡ x = ground arith in
        inr (rw same (All-Occurs (λ z. before x z ≡ true) xs y sorted.0 o))
    | inr (false, miss) ↦ first_compatible-first before xs row y sorted.1 (ground arith) o fits
  ]

  -- A scan that finds nothing has refused every candidate.
  pub first_compatible-none :
      (rows : List Execution) (y : Execution)
      → first_compatible test rows ≡ ok none
      → Occurs y rows
      → test y ≡ ok false
  unfolding first_compatible
  first_compatible-none [] y h o = absurd o
  first_compatible-none (x ∷ xs) y h o = elim (Test-cases (test x)) [
    | inl (e, raised) ↦ absurd (ground arith)
    | inr (true, hit) ↦ absurd (ground arith)
    | inr (false, miss) ↦ elim o [
      | inl same ↦ ap test same ∙ miss
      | inr o' ↦ first_compatible-none xs y (ground arith) o'
    ]
  ]
