-- ===== src/Sql/Update.antt =====
-- What an UPDATE leaves of a table: lookups by a key that it keeps, its row count, and predicates
-- that hold of every row.
use brunost_judge.Prelude.{
  ◌≡◌, refl, Bool, true, false, Option, none, some, List, [], ◌∷◌, ◌++◌, All, Bool-cases, inl, inr,
  subst, arith, if◌then◌else◌,
}
use brunost_judge.Sql.{first_where, apply_if, update_where, rowcount, exists_where}

module _ {ℓ} {A : Type ℓ} where
  abbrev pub update_option : (A → Bool) → (A → A) → Option A → Option A
  update_option p f none = none
  update_option p f (some r) = some (apply_if p f r)

  -- A lookup by a key that the update keeps finds the updated row.
  pub first-update :
      (q p : A → Bool) (f : A → A)
      → ((r : A) → q (f r) ≡ q r)
      → (rs : List A) → first_where q (update_where p f rs) ≡ update_option p f (first_where q rs)
  unfolding first_where update_where
  first-update q p f keep [] = refl
  first-update q p f keep (r ∷ rs) = ground (arith, keep r, first-update q p f keep rs)

  pub first-append :
      (q : A → Bool) (rs ss : List A)
      → first_where q (rs ++ ss)
        ≡ elim (first_where q rs) [ none ↦ first_where q ss | some r ↦ some r ]
  unfolding first_where
  first-append q [] ss = refl
  first-append q (r ∷ rs) ss = ground (arith, first-append q rs ss)

  pub first-satisfies :
      (q : A → Bool) (rs : List A) (r : A) → first_where q rs ≡ some r → q r ≡ true
  unfolding first_where
  first-satisfies q [] r h = cc
  first-satisfies q (x ∷ rs) r h = ground (arith, first-satisfies q rs r)

  pub exists-first :
      (q : A → Bool) (rs : List A)
      → exists_where q rs ≡ elim (first_where q rs) [ none ↦ false | some r ↦ true ]
  unfolding exists_where first_where
  exists-first q [] = refl
  exists-first q (r ∷ rs) = ground (arith, exists-first q rs)

  pub exists-update :
      (q p : A → Bool) (f : A → A)
      → ((r : A) → q (f r) ≡ q r)
      → (rs : List A) → exists_where q (update_where p f rs) ≡ exists_where q rs
  unfolding exists_where update_where
  exists-update q p f keep [] = refl
  exists-update q p f keep (r ∷ rs) = ground (arith, keep r, exists-update q p f keep rs)

  pub exists-append :
      (q : A → Bool) (rs ss : List A)
      → exists_where q (rs ++ ss) ≡ (if exists_where q rs then true else exists_where q ss)
  unfolding exists_where
  exists-append q [] ss = refl
  exists-append q (r ∷ rs) ss = ground (arith, exists-append q rs ss)

  -- An update that matches no row changes nothing.
  pub update-none :
      (p : A → Bool) (f : A → A) (rs : List A) → rowcount p rs ≡ 0 → update_where p f rs ≡ rs
  unfolding rowcount update_where
  update-none p f [] h = refl
  update-none p f (r ∷ rs) h = ground (arith, update-none p f rs)

  module _ {κ} (P : A → Type κ) where
    pub All-update :
        (p : A → Bool) (f : A → A)
        → ((r : A) → p r ≡ true → P r → P (f r))
        → (rs : List A) → All P rs
        → All P (update_where p f rs)
    unfolding update_where
    All-update p f keep [] h = tt
    All-update p f keep (r ∷ rs) h = (one (p r) refl, All-update p f keep rs h.1)
      where
        one : (b : Bool) → p r ≡ b → P (if b then f r else r)
        one true e = keep r e h.0
        one false e = h.0

    pub All-first :
        (q : A → Bool) (rs : List A) (r : A) → All P rs → first_where q rs ≡ some r → P r
    unfolding first_where
    All-first q [] r h e = cc
    All-first q (x ∷ rs) r h e = elim (Bool-cases (q x)) [
      | inl hit ↦ subst P (ground arith) h.0
      | inr miss ↦ All-first q rs r h.1 (ground arith)
    ]
