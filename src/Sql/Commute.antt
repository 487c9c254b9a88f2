-- ===== src/Sql/Commute.antt =====
-- A WHERE clause may be applied before or after ORDER BY, and LIMIT 1 takes the first match.
use brunost_judge.Prelude.{
  ◌≡◌, refl, sym, ◌∙◌, inl, inr, Bool, true, ◌&&◌, Bool-cases, Option, none, some, List, [], ◌∷◌,
  All, arith, if◌then◌else◌,
}
use brunost_judge.Sql.{select_where, first_where, insert_by, order_by}
use brunost_judge.Sql.Order.{IsTotalOrder, IsSorted, order_by-IsSorted}

-- LIMIT 1, fetchone
abbrev pub first_row {ℓ} : {A : Type ℓ} → List A → Option A
first_row [] = none
first_row (r ∷ rs) = some r

module _ {ℓ} {A : Type ℓ} where
  pub first_row-select :
      (q : A → Bool) (rs : List A) → first_row (select_where q rs) ≡ first_where q rs
  unfolding select_where first_where
  first_row-select q [] = refl
  first_row-select q (r ∷ rs) = ground (arith, first_row-select q rs)

  pub select-select :
      (p q : A → Bool) (rs : List A)
      → select_where q (select_where p rs) ≡ select_where (λ r. p r && q r) rs
  unfolding select_where
  select-select p q [] = refl
  select-select p q (r ∷ rs) = elim (Bool-cases (p r)) [
    | inl hit ↦ rw (hit, select-select p q rs)
    | inr miss ↦ rw (miss, select-select p q rs)
  ]

  pub select-eq :
      (p q : A → Bool)
      → ((r : A) → p r ≡ q r)
      → (rs : List A) → select_where p rs ≡ select_where q rs
  unfolding select_where
  select-eq p q same [] = refl
  select-eq p q same (r ∷ rs) = rw (same r, select-eq p q same rs)

  -- a test that is decided alike on every row of the table
  pub first-All :
      (p q : A → Bool) (rs : List A) → All (λ r. p r ≡ q r) rs → first_where p rs ≡ first_where q rs
  unfolding first_where
  first-All p q [] h = refl
  first-All p q (r ∷ rs) h = rw (h.0, first-All p q rs h.1)

module _ {ℓ} {A : Type ℓ} (before : A → A → Bool) (o : IsTotalOrder before) (q : A → Bool) where
  -- what stands in front of a row stands in front of every row that is selected behind it
  insert_front :
      (x r : A) (rs : List A)
      → before x r ≡ true
      → IsSorted before (r ∷ rs)
      → insert_by before x (select_where q (r ∷ rs)) ≡ x ∷ select_where q (r ∷ rs)
  unfolding insert_by select_where
  insert_front x r rs front sorted = elim (Bool-cases (q r)) [
    | inl hit ↦ rw (hit, front)
    | inr miss ↦ rw miss (behind rs sorted.0)
  ]
    where
      behind :
          (ys : List A)
          → All (λ y. before r y ≡ true) ys
          → insert_by before x (select_where q ys) ≡ x ∷ select_where q ys
      behind [] h = refl
      behind (y ∷ ys) h = elim (Bool-cases (q y)) [
        | inl hit ↦ rw (hit, o.trans x r y front h.0)
        | inr miss ↦ rw miss (behind ys h.1)
      ]

  select-insert :
      (x : A) (rs : List A)
      → IsSorted before rs
      → select_where q (insert_by before x rs)
        ≡ (if q x then insert_by before x (select_where q rs) else select_where q rs)
  unfolding insert_by select_where
  select-insert x [] sorted = ground arith
  select-insert x (r ∷ rs) sorted = elim (Bool-cases (before x r)) [
    | inl front ↦ elim (Bool-cases (q x)) [
      | inl taken ↦ rw (front, taken) (sym (insert_front x r rs front sorted))
      | inr left ↦ rw (front, left)
    ]
    | inr back ↦ rw (back, select-insert x rs sorted.1) (ground (arith))
  ]

  pub select-order :
      (rs : List A) → select_where q (order_by before rs) ≡ order_by before (select_where q rs)
  unfolding order_by select_where
  select-order [] = refl
  select-order (r ∷ rs) =
      select-insert r (order_by before rs) (order_by-IsSorted before o rs)
      ∙ rw (select-order rs) (ground arith)
