-- ===== src/Sql/Texts.antt =====
-- A list of texts that is sorted has the same members, as often.
use brunost_judge.Prelude.{
  suc, String, ◌≡◌, refl, ap, ◌∙◌, Bool, List, [], ◌∷◌, length, contains, arith,
}
use brunost_judge.Sql.{insert_by, order_by}

module _ (before : String → String → Bool) where
  pub contains-insert :
      (x y : String) (ys : List String) → contains x (insert_by before y ys) ≡ contains x (y ∷ ys)
  unfolding insert_by contains
  contains-insert x y [] = refl
  contains-insert x y (z ∷ ys) = ground (arith, contains-insert x y ys)

  pub contains-order :
      (x : String) (ys : List String) → contains x (order_by before ys) ≡ contains x ys
  unfolding order_by contains
  contains-order x [] = refl
  contains-order x (y ∷ ys) = rw (contains-insert x y (order_by before ys), contains-order x ys)

  length-insert : (y : String) (ys : List String) → length (insert_by before y ys) ≡ suc (length ys)
  unfolding insert_by
  length-insert y [] = refl
  length-insert y (z ∷ ys) = ground (arith, length-insert y ys)

  pub length-order : (ys : List String) → length (order_by before ys) ≡ length ys
  unfolding order_by
  length-order [] = refl
  length-order (y ∷ ys) = length-insert y (order_by before ys) ∙ ap suc (length-order ys)
