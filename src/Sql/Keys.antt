-- ===== src/Sql/Keys.antt =====
-- Tables with a text column that is a key: PRIMARY KEY and UNIQUE.
use brunost_judge.Prelude.{
  ◌≤◌, String, ◌≡◌, refl, sym, ap, ◌∙◌, ◌⊎◌, inl, inr, Bool, true, false, some, List, [], ◌∷◌, ◌++◌,
  All, Bool-cases, subst, arith, eq_iff, ==→eq, ◌==◌, if◌then◌else◌,
}
use brunost_judge.Sql.{
  select_where, first_where, update_where, rowcount, exists_where, insert_by, order_by,
}
use brunost_judge.Sql.Update.{exists-update, exists-append}

-- `x` is a row of the table.
abbrev pub Occurs : {A : Type 0} → A → List A → Type 0
Occurs x [] = ⊥
Occurs x (r ∷ rs) = (x ≡ r) ⊎ Occurs x rs

later : {A B C : Type 0} → (B → C) → A ⊎ B → A ⊎ C
later f (inl a) = inl a
later f (inr b) = inr (f b)

swap_front : {A B C : Type 0} → A ⊎ (B ⊎ C) → B ⊎ (A ⊎ C)
swap_front (inl a) = inr (inl a)
swap_front (inr (inl b)) = inl b
swap_front (inr (inr c)) = inr (inr c)

module _ {A : Type 0} (key : A → String) where
  abbrev pub has : String → A → Bool
  has k r = key r == k

  abbrev pub IsUnique : List A → Type 0
  IsUnique [] = Unit
  IsUnique (r ∷ rs) = (exists_where (has (key r)) rs ≡ false) × IsUnique rs

  pub IsUnique-update :
      (p : A → Bool) (f : A → A)
      → ((r : A) → key (f r) ≡ key r)
      → (rs : List A) → IsUnique rs
      → IsUnique (update_where p f rs)
  unfolding update_where
  IsUnique-update p f keep [] h = tt
  IsUnique-update p f keep (r ∷ rs) h = (
    rw kept (exists-update (has (key r)) p f (λ x. rw keep) rs ∙ h.0),
    IsUnique-update p f keep rs h.1,
  )
    where
      kept : key (if p r then f r else r) ≡ key r
      kept = elim (Bool-cases (p r)) [ inl hit ↦ rw hit (keep r) | inr miss ↦ rw miss ]

  pub IsUnique-append :
      (rs : List A) (x : A)
      → exists_where (has (key x)) rs ≡ false
      → IsUnique rs
      → IsUnique (rs ++ x ∷ [])
  unfolding exists_where
  IsUnique-append [] x new h = (refl, tt)
  IsUnique-append (r ∷ rs) x new h = (
    ground (
      arith,
      exists-append (has (key r)) rs (x ∷ []),
      eq_iff (key r) (key x),
      eq_iff (key x) (key r),
    ),
    IsUnique-append rs x (ground arith) h.1,
  )

  not_Occurs :
      (k : String) (x : A) (rs : List A)
      → exists_where (has k) rs ≡ false
      → key x ≡ k
      → ¬ Occurs x rs
  unfolding exists_where
  not_Occurs k x [] none_has e o = o
  not_Occurs k x (r ∷ rs) none_has e (inl same) = ground (arith, eq_iff (key r) k, ap key same)
  not_Occurs k x (r ∷ rs) none_has e (inr later) = not_Occurs k x rs (ground arith) e later

  -- A key determines its row.
  pub Occurs-determined :
      (x y : A) (rs : List A) → IsUnique rs → Occurs x rs → Occurs y rs → key x ≡ key y → x ≡ y
  Occurs-determined x y [] h ox oy e = absurd ox
  Occurs-determined x y (r ∷ rs) h (inl p) (inl q) e = p ∙ sym q
  Occurs-determined x y (r ∷ rs) h (inl p) (inr oy) e =
      absurd (not_Occurs (key r) y rs h.0 (sym e ∙ ap key p) oy)
  Occurs-determined x y (r ∷ rs) h (inr ox) (inl q) e =
      absurd (not_Occurs (key r) x rs h.0 (e ∙ ap key q) ox)
  Occurs-determined x y (r ∷ rs) h (inr ox) (inr oy) e = Occurs-determined x y rs h.1 ox oy e

  -- A row is what a lookup by its key returns.
  pub find_by_key :
      (k : String) (r : A) (rs : List A)
      → IsUnique rs
      → Occurs r rs
      → key r ≡ k
      → first_where (has k) rs ≡ some r
  unfolding first_where
  find_by_key k r [] u o e = absurd o
  find_by_key k r (x ∷ rs) u (inl same) e = ground (arith, eq_iff (key x) k, ap key same)
  find_by_key k r (x ∷ rs) u (inr o) e = elim (Bool-cases (has k x)) [
    | inl hit ↦ absurd (not_Occurs (key x) r rs u.0 (e ∙ sym (==→eq _ _ hit)) o)
    | inr miss ↦ rw miss (find_by_key k r rs u.1 o e)
  ]

  -- An UPDATE under a key that no row has counts none.
  pub rowcount_absent :
      (k : String) (p : A → Bool)
      → ((r : A) → p r ≡ true → key r ≡ k)
      → (rs : List A) → exists_where (has k) rs ≡ false
      → rowcount p rs ≡ 0
  unfolding rowcount exists_where
  rowcount_absent k p only [] e = refl
  rowcount_absent k p only (r ∷ rs) e = elim (Bool-cases (p r)) [
    | inl hit ↦ absurd (ground (arith, eq_iff (key r) k, only r hit))
    | inr miss ↦ rw miss (rowcount_absent k p only rs (ground arith))
  ]

  -- At most one row has a given key, so an UPDATE by key counts one row at most.
  pub rowcount_key :
      (k : String) (p : A → Bool)
      → ((r : A) → p r ≡ true → key r ≡ k)
      → (rs : List A) → IsUnique rs
      → rowcount p rs ≤ 1
  unfolding rowcount
  rowcount_key k p only [] h = omega arith
  rowcount_key k p only (r ∷ rs) h = elim (Bool-cases (p r)) [
    | inl hit ↦ rw hit (omega (arith, absent hit))
    | inr miss ↦ rw miss (rowcount_key k p only rs h.1)
  ]
    where
      absent : p r ≡ true → rowcount p rs ≡ 0
      absent hit =
          rowcount_absent k p only rs
            (subst (λ i. exists_where (has i) rs ≡ false) (only r hit) h.0)

module _ {A : Type 0} where
  pub first-Occurs : (q : A → Bool) (rs : List A) (r : A) → first_where q rs ≡ some r → Occurs r rs
  unfolding first_where
  first-Occurs q [] r h = cc
  first-Occurs q (x ∷ rs) r h = elim (Bool-cases (q x)) [
    | inl hit ↦ inl (ground arith)
    | inr miss ↦ inr (first-Occurs q rs r (ground arith))
  ]

  module _ {κ} (P : A → Type κ) where
    pub All-Occurs : (rs : List A) (r : A) → All P rs → Occurs r rs → P r
    All-Occurs [] r h o = absurd o
    All-Occurs (x ∷ rs) r h (inl e) = subst P (sym e) h.0
    All-Occurs (x ∷ rs) r h (inr o) = All-Occurs rs r h.1 o

    pub All-of_Occurs : (rs : List A) → ((r : A) → Occurs r rs → P r) → All P rs
    All-of_Occurs [] h = tt
    All-of_Occurs (r ∷ rs) h = (h r (inl refl), All-of_Occurs rs (λ x o. h x (inr o)))

  select_hit :
      (p : A → Bool) (x r : A) (rs ss : List A)
      → p x ≡ true
      → (Occurs r ss → Occurs r rs × (p r ≡ true))
      → (r ≡ x) ⊎ Occurs r ss
      → ((r ≡ x) ⊎ Occurs r rs) × (p r ≡ true)
  select_hit p x r rs ss hit rest (inl e) = (inl e, ap p e ∙ hit)
  select_hit p x r rs ss hit rest (inr o) = let h = rest o in (inr h.0, h.1)

  pub rowcount-pos :
      (p : A → Bool) (r : A) (rs : List A) → Occurs r rs → p r ≡ true → 1 ≤ rowcount p rs
  unfolding rowcount
  rowcount-pos p r [] o h = absurd o
  rowcount-pos p r (x ∷ rs) (inl same) h = rw (sym (ap p same) ∙ h) (omega arith)
  rowcount-pos p r (x ∷ rs) (inr o) h = ground (arith, rowcount-pos p r rs o h)

  pub rowcount-none :
      (p : A → Bool) (rs : List A) → ((r : A) → Occurs r rs → p r ≡ false) → rowcount p rs ≡ 0
  unfolding rowcount
  rowcount-none p [] h = refl
  rowcount-none p (r ∷ rs) h = rw (h r (inl refl)) (rowcount-none p rs (λ x o. h x (inr o)))

  pub All-of_update :
      {P : A → Type 0} (p : A → Bool) (f : A → A) (rs : List A)
      → ((r : A) → Occurs r rs → P r)
      → ((r : A) → Occurs r rs → p r ≡ true → P (f r))
      → All P (update_where p f rs)
  unfolding update_where
  All-of_update p f [] h k = tt
  All-of_update p f (r ∷ rs) h k = elim (Bool-cases (p r)) [
    | inl hit ↦
        rw hit (k r (inl refl) hit, All-of_update p f rs (λ x o. h x (inr o)) (λ x o. k x (inr o)))
    | inr miss ↦
        rw miss (h r (inl refl), All-of_update p f rs (λ x o. h x (inr o)) (λ x o. k x (inr o)))
  ]

  pub select-Occurs :
      (p : A → Bool) (rs : List A) (r : A)
      → Occurs r (select_where p rs)
      → Occurs r rs × (p r ≡ true)
  unfolding select_where
  select-Occurs p [] r o = absurd o
  select-Occurs p (x ∷ rs) r o = elim (Bool-cases (p x)) [
    | inl hit ↦ select_hit p x r rs (select_where p rs) hit (select-Occurs p rs r) (rw hit at o)
    | inr miss ↦ let h = select-Occurs p rs r (rw miss at o) in (inr h.0, h.1)
  ]

  -- What is selected is every row that the test accepts.
  pub Occurs-select :
      (p : A → Bool) (rs : List A) (r : A) → Occurs r rs → p r ≡ true → Occurs r (select_where p rs)
  unfolding select_where
  Occurs-select p [] r o e = absurd o
  Occurs-select p (x ∷ rs) r (inl q) e = rw (sym (ap p q) ∙ e) (inl q)
  Occurs-select p (x ∷ rs) r (inr o) e = elim (Bool-cases (p x)) [
    | inl hit ↦ rw hit (inr (Occurs-select p rs r o e))
    | inr miss ↦ rw miss (Occurs-select p rs r o e)
  ]

  insert-Occurs :
      (before : A → A → Bool) (x : A) (rs : List A) (r : A)
      → Occurs r (insert_by before x rs)
      → Occurs r (x ∷ rs)
  unfolding insert_by
  insert-Occurs before x [] r o = o
  insert-Occurs before x (y ∷ rs) r o = elim (Bool-cases (before x y)) [
    | inl first ↦ rw first at o
    | inr behind ↦ swap_front (later (insert-Occurs before x rs r) (rw behind at o))
  ]

  Occurs-insert :
      (before : A → A → Bool) (x : A) (rs : List A) (r : A)
      → Occurs r (x ∷ rs)
      → Occurs r (insert_by before x rs)
  unfolding insert_by
  Occurs-insert before x [] r o = o
  Occurs-insert before x (y ∷ rs) r o = elim (Bool-cases (before x y)) [
    | inl first ↦ rw first o
    | inr behind ↦ rw behind (later (Occurs-insert before x rs r) (swap_front o))
  ]

  -- ORDER BY shows the rows of the table and no others.
  pub order-Occurs :
      (before : A → A → Bool) (rs : List A) (r : A) → Occurs r (order_by before rs) → Occurs r rs
  unfolding order_by
  order-Occurs before [] r o = o
  order-Occurs before (x ∷ rs) r o =
      later (order-Occurs before rs r) (insert-Occurs before x (order_by before rs) r o)

  pub Occurs-order :
      (before : A → A → Bool) (rs : List A) (r : A) → Occurs r rs → Occurs r (order_by before rs)
  unfolding order_by
  Occurs-order before [] r o = o
  Occurs-order before (x ∷ rs) r o =
      Occurs-insert before x (order_by before rs) r (later (Occurs-order before rs r) o)
