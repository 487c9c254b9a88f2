-- ===== src/Sql/Order.antt =====
-- ORDER BY is a sort under a total order, and the byte order of texts (SQLite's BINARY collation; on
-- UTF-8 it is the order of the code points) is one.
use Prim.Native.Char.{code}
use mathlib.Core.List.{Perm}
use mathlib.Core.List.Perm
use brunost_judge.Prelude.{
  ℕ, String, ◌≡◌, refl, inl, inr, Bool, true, false, List, [], ◌∷◌, All, Bool-cases, arith, ltb,
  nat_eq, if◌then◌else◌,
}
use brunost_judge.Sql.{insert_by, order_by}

abbrev pub codes : String → List ℕ
codes String.[] = []
codes (String.◌∷◌ c s) = code c ∷ codes s

-- lexicographic order of the code points
unfoldable pub codes_leb : List ℕ → List ℕ → Bool
codes_leb [] ys = true
codes_leb (x ∷ xs) [] = false
codes_leb (x ∷ xs) (y ∷ ys) =
    if ltb x y then true else if nat_eq x y then codes_leb xs ys else false

unfoldable pub text_leb : String → String → Bool
unfolding codes_leb
text_leb s t = codes_leb (codes s) (codes t)

-- a total preorder, as a Boolean test
pub record IsTotalOrder {ℓ} {A : Type ℓ} (before : A → A → Bool) : Type ℓ where
  pub total : (a b : A) → before a b ≡ false → before b a ≡ true
  pub trans : (a b c : A) → before a b ≡ true → before b c ≡ true → before a c ≡ true

codes_leb_total : (xs ys : List ℕ) → codes_leb xs ys ≡ false → codes_leb ys xs ≡ true
unfolding codes_leb
codes_leb_total [] ys h = cc
codes_leb_total (x ∷ xs) [] h = refl
codes_leb_total (x ∷ xs) (y ∷ ys) h = ground (arith, codes_leb_total xs ys)

codes_leb_trans :
    (xs ys zs : List ℕ) → codes_leb xs ys ≡ true → codes_leb ys zs ≡ true → codes_leb xs zs ≡ true
unfolding codes_leb
codes_leb_trans [] ys zs h k = refl
codes_leb_trans (x ∷ xs) [] zs h k = cc
codes_leb_trans (x ∷ xs) (y ∷ ys) [] h k = cc
codes_leb_trans (x ∷ xs) (y ∷ ys) (z ∷ zs) h k = ground (arith, codes_leb_trans xs ys zs)

pub text_leb-IsTotalOrder : IsTotalOrder text_leb
unfolding text_leb
text_leb-IsTotalOrder = record {
  total = λ a b. codes_leb_total (codes a) (codes b);
  trans = λ a b c. codes_leb_trans (codes a) (codes b) (codes c);
}

module _ {ℓ} {A : Type ℓ} (before : A → A → Bool) where
  -- No row stands behind a row that it must precede.
  abbrev pub IsSorted : List A → Type 0
  IsSorted [] = Unit
  IsSorted (r ∷ rs) = All (λ x. before r x ≡ true) rs × IsSorted rs

  insert-perm : (x : A) (rs : List A) → Perm (insert_by before x rs) (x ∷ rs)
  unfolding insert_by
  insert-perm x [] = Perm.refl (x ∷ [])
  insert-perm x (r ∷ rs) = elim (Bool-cases (before x r)) [
    | inl first ↦ rw first (Perm.refl (x ∷ r ∷ rs))
    | inr later ↦ rw later (Perm.trans (Perm.cons r (insert-perm x rs)) (Perm.swap x r rs))
  ]

  -- ORDER BY neither loses nor repeats a row.
  pub order_by-perm : (rs : List A) → Perm (order_by before rs) rs
  unfolding order_by
  order_by-perm [] = Perm.refl []
  order_by-perm (r ∷ rs) =
      Perm.trans (insert-perm r (order_by before rs)) (Perm.cons r (order_by-perm rs))

  module _ (o : IsTotalOrder before) where
    All-before_trans :
        (x r : A) (rs : List A)
        → before x r ≡ true
        → All (λ y. before r y ≡ true) rs
        → All (λ y. before x y ≡ true) rs
    All-before_trans x r [] h k = tt
    All-before_trans x r (y ∷ rs) h k = (o.trans x r y h k.0, All-before_trans x r rs h k.1)

    All-insert :
        (a x : A) (rs : List A)
        → before a x ≡ true
        → All (λ y. before a y ≡ true) rs
        → All (λ y. before a y ≡ true) (insert_by before x rs)
    unfolding insert_by
    All-insert a x [] h k = (h, tt)
    All-insert a x (r ∷ rs) h k = elim (Bool-cases (before x r)) [
      | inl first ↦ rw first (h, k)
      | inr later ↦ rw later (k.0, All-insert a x rs h k.1)
    ]

    insert-IsSorted : (x : A) (rs : List A) → IsSorted rs → IsSorted (insert_by before x rs)
    unfolding insert_by
    insert-IsSorted x [] h = (tt, tt)
    insert-IsSorted x (r ∷ rs) h = elim (Bool-cases (before x r)) [
      | inl first ↦ rw first ((first, All-before_trans x r rs first h.0), h)
      | inr later ↦ rw later (All-insert r x rs (o.total x r later) h.0, insert-IsSorted x rs h.1)
    ]

    pub order_by-IsSorted : (rs : List A) → IsSorted (order_by before rs)
    unfolding order_by
    order_by-IsSorted [] = tt
    order_by-IsSorted (r ∷ rs) = insert-IsSorted r (order_by before rs) (order_by-IsSorted rs)
