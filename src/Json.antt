-- ===== src/Json.antt =====
-- Decoded JSON values as the judge handles them (the dictionaries of src/brunost_judge): numbers,
-- truth, lookup, assignment, and Python's `==` between such values.
use brunost_judge.Prelude.{
  ℕ, zero, suc, ◌^◌, String, Bool, true, false, ◌&&◌, Option, none, some, List, [], ◌∷◌, ◌==◌,
  nat_eq, if◌then◌else◌,
}
use brunost_judge.Prelude.Int.{ℤ, pos, ◌*ℤ◌, eq_ℤ}

-- A Python number: an int, a finite float m / 2 ^ k, or one of the floats that are not finite.
pub data Num : Type 0 where
  int : ℤ → Num
  float : ℤ → ℕ → Num
  inf : Bool → Num
  nan : Num

mutual
  pub data Json : Type 0 where
    null : Json
    bool : Bool → Json
    num : Num → Json
    str : String → Json
    arr : Items → Json
    obj : Fields → Json

  pub data Items : Type 0 where
    nil : Items
    cons : Json → Items → Items

  pub data Fields : Type 0 where
    end : Fields
    field : String → Json → Fields → Fields

-- `key in d` and `d.get(key)`
unfoldable pub get : String → Fields → Option Json
get k end = none
get k (field j v fs) = if j == k then some v else get k fs

-- `d.get(key)`, with None for a missing key
unfoldable pub get_or_null : String → Fields → Json
unfolding get
get_or_null k fs = elim (get k fs) [ none ↦ null | some v ↦ v ]

-- `d[key] = value`
unfoldable pub put : String → Json → Fields → Fields
put k v end = field k v end
put k v (field j w fs) = if j == k then field k v fs else field j w (put k v fs)

-- the number of entries of a dictionary
unfoldable pub size : Fields → ℕ
size end = zero
size (field k v fs) = suc (size fs)

num_truthy : Num → Bool
num_truthy (int (pos zero)) = false
num_truthy (float (pos zero) k) = false
num_truthy _ = true

-- Python's truth value
unfoldable pub truthy : Json → Bool
unfolding num_truthy
truthy null = false
truthy (bool b) = b
truthy (num n) = num_truthy n
truthy (str s) = if s == "" then false else true
truthy (arr nil) = false
truthy (arr (cons x xs)) = true
truthy (obj end) = false
truthy (obj (field k v fs)) = true

-- `a or b`
unfoldable pub or_else : Json → Json → Json
unfolding truthy
or_else a b = if truthy a then a else b

pow2 : ℕ → ℤ
pow2 k = pos (2 ^ k)

-- `==` between numbers; a NaN equals nothing
unfoldable pub num_eq : Num → Num → Bool
unfolding pow2 ◌*ℤ◌
num_eq (int a) (int b) = eq_ℤ a b
num_eq (int a) (float m k) = eq_ℤ (a *ℤ pow2 k) m
num_eq (float m k) (int b) = eq_ℤ m (b *ℤ pow2 k)
num_eq (float m k) (float n l) = eq_ℤ (m *ℤ pow2 l) (n *ℤ pow2 k)
num_eq (inf true) (inf b) = b
num_eq (inf false) (inf true) = false
num_eq (inf false) (inf false) = true
num_eq _ _ = false

-- `bool` is a subclass of `int`
unfoldable pub as_number : Json → Option Num
as_number (bool true) = some (int (pos 1))
as_number (bool false) = some (int (pos 0))
as_number (num n) = some n
as_number _ = none

numbers_eq : Option Num → Option Num → Bool
unfolding num_eq
numbers_eq (some a) (some b) = num_eq a b
numbers_eq _ _ = false

-- `==` between decoded values; dictionaries are compared without regard to order
unfoldable mutual
  unfolding numbers_eq as_number get size

  pub json_eq : Json → Json → Bool
  json_eq null null = true
  json_eq null _ = false
  json_eq (bool a) y = numbers_eq (as_number (bool a)) (as_number y)
  json_eq (num a) y = numbers_eq (some a) (as_number y)
  json_eq (str a) (str b) = a == b
  json_eq (str a) _ = false
  json_eq (arr xs) (arr ys) = items_eq xs ys
  json_eq (arr xs) _ = false
  json_eq (obj fs) (obj gs) = nat_eq (size fs) (size gs) && fields_in fs gs
  json_eq (obj fs) _ = false

  pub items_eq : Items → Items → Bool
  items_eq nil nil = true
  items_eq nil (cons y ys) = false
  items_eq (cons x xs) nil = false
  items_eq (cons x xs) (cons y ys) = json_eq x y && items_eq xs ys

  -- each entry of the first dictionary stands in the second with an equal value
  pub fields_in : Fields → Fields → Bool
  fields_in end gs = true
  fields_in (field k v fs) gs =
      elim (get k gs) [ none ↦ false | some w ↦ json_eq v w ] && fields_in fs gs

unfoldable pub item_list : Items → List Json
item_list nil = []
item_list (cons x xs) = x ∷ item_list xs
