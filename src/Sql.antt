-- ===== src/Sql.antt =====
-- The SQL statements of src/brunost_judge/store.py, over tables that are lists of rows: SELECT with
-- a WHERE clause, fetchone, UPDATE with its row count, INSERT under a unique key, and ORDER BY.
pub mod Update
pub mod Order
pub mod Keys
pub mod Commute
pub mod Texts
use brunost_judge.Prelude.{
  ℕ, zero, suc, Bool, true, false, Option, none, some, List, [], ◌∷◌, if◌then◌else◌,
}

module _ {ℓ} {A : Type ℓ} where
  -- SELECT ... WHERE p
  unfoldable pub select_where : (A → Bool) → List A → List A
  select_where p [] = []
  select_where p (r ∷ rs) = let rest = select_where p rs in if p r then r ∷ rest else rest

  -- SELECT ... WHERE p, fetchone
  unfoldable pub first_where : (A → Bool) → List A → Option A
  first_where p [] = none
  first_where p (r ∷ rs) = if p r then some r else first_where p rs

  -- what UPDATE ... SET f WHERE p does to one row
  abbrev pub apply_if : (A → Bool) → (A → A) → A → A
  apply_if p f r = if p r then f r else r

  -- UPDATE ... SET f WHERE p
  unfoldable pub update_where : (A → Bool) → (A → A) → List A → List A
  update_where p f [] = []
  update_where p f (r ∷ rs) = apply_if p f r ∷ update_where p f rs

  -- cursor.rowcount of that statement
  unfoldable pub rowcount : (A → Bool) → List A → ℕ
  rowcount p [] = zero
  rowcount p (r ∷ rs) = if p r then suc (rowcount p rs) else rowcount p rs

  -- EXISTS (SELECT ... WHERE p)
  unfoldable pub exists_where : (A → Bool) → List A → Bool
  exists_where p [] = false
  exists_where p (r ∷ rs) = if p r then true else exists_where p rs

  -- ORDER BY: `before a b` says that `a` may stand in front of `b`
  unfoldable pub insert_by : (A → A → Bool) → A → List A → List A
  insert_by before x [] = x ∷ []
  insert_by before x (r ∷ rs) = if before x r then x ∷ r ∷ rs else r ∷ insert_by before x rs

  unfoldable pub order_by : (A → A → Bool) → List A → List A
  unfolding insert_by
  order_by before [] = []
  order_by before (r ∷ rs) = insert_by before r (order_by before rs)
