-- ===== src/Auth/RateLimiter/Trace.antt =====
-- The times that were let through so far, and how many of them lie within a window.
use mathlib.Core.List.{append_assoc}
use brunost_judge.Prelude.{
  ℕ, suc, ◌+◌, ◌≤◌, ◌<◌, ◌≡◌, refl, sym, ap, ◌∙◌, inl, inr, ◌&&◌, Bool-cases, List, [], ◌∷◌, ◌++◌,
  All, All-append, length, leb, leb→le, ltb→lt, ltb, arith, if◌then◌else◌,
}
use brunost_judge.Auth.RateLimiter.{prune}

-- the requests of the window that ends at `t`
unfoldable pub count_within : ℕ → ℕ → List ℕ → ℕ
count_within window t [] = 0
count_within window t (x ∷ xs) =
    if leb x t && ltb t (x + window)
    then suc (count_within window t xs)
    else count_within window t xs

pub count-append :
    (window t : ℕ) (xs ys : List ℕ)
    → count_within window t (xs ++ ys) ≡ count_within window t xs + count_within window t ys
unfolding count_within
count-append window t [] ys = omega arith
count-append window t (x ∷ xs) ys = ground (arith, count-append window t xs ys)

pub count_le-length : (window t : ℕ) (xs : List ℕ) → count_within window t xs ≤ length xs
unfolding count_within
count_le-length window t [] = omega arith
count_le-length window t (x ∷ xs) = ground (arith, count_le-length window t xs)

pub count-old :
    (window now t : ℕ) (xs : List ℕ)
    → All (λ x. x + window ≤ now) xs
    → now ≤ t
    → count_within window t xs ≡ 0
unfolding count_within
count-old window now t [] h late = refl
count-old window now t (x ∷ xs) h late = ground (arith, h.0, count-old window now t xs h.1 late)

pub count_future : (window now t : ℕ) → t < now → count_within window t (now ∷ []) ≡ 0
unfolding count_within
count_future window now t early = ground arith

pub count_one : (window now t : ℕ) → count_within window t (now ∷ []) ≤ 1
unfolding count_within
count_one window now t = ground arith

-- what was let through so far: what has left the window, and the times that the limiter still has
pub record IsTrace (window last : ℕ) (past times : List ℕ) : Type 0 where
  pub gone : List ℕ
  pub split : past ≡ gone ++ times
  pub old : All (λ x. x + window ≤ last) gone

pub prune-split :
    (window now : ℕ) (ts : List ℕ)
    → (gone : List ℕ) × (ts ≡ gone ++ prune window now ts) × All (λ x. x + window ≤ now) gone
unfolding prune
prune-split window now [] = ([], refl, tt)
prune-split window now (t ∷ ts) = elim (Bool-cases (leb (t + window) now)) [
  | inl expired ↦
      let (gone, split, old) = prune-split window now ts in
      rw expired (t ∷ gone, ap (λ xs. t ∷ xs) split, (leb→le _ _ expired, old))
  | inr kept ↦ rw kept ([], refl, tt)
]

pub old_later :
    (window last now : ℕ) (xs : List ℕ)
    → last ≤ now
    → All (λ x. x + window ≤ last) xs
    → All (λ x. x + window ≤ now) xs
old_later window last now [] le h = tt
old_later window last now (x ∷ xs) le h = (omega (arith, h.0), old_later window last now xs le h.1)

pub IsTrace-prune :
    (window last now : ℕ) (past times : List ℕ)
    → last ≤ now
    → IsTrace window last past times
    → IsTrace window now past (prune window now times)
IsTrace-prune window last now past times le h =
    let (gone, split, old) = prune-split window now times in
    record {
      gone = h.gone ++ gone;
      split =
          h.split
          ∙ ap (λ xs. h.gone ++ xs) split
          ∙ sym (append_assoc h.gone gone (prune window now times));
      old = All-append _ h.gone gone (old_later window last now h.gone le h.old) old;
    }

pub IsTrace-add :
    (window now : ℕ) (past times : List ℕ)
    → IsTrace window now past times
    → IsTrace window now (past ++ now ∷ []) (times ++ now ∷ [])
IsTrace-add window now past times h = record {
  gone = h.gone;
  split = ap (λ xs. xs ++ now ∷ []) h.split ∙ append_assoc h.gone times (now ∷ []);
  old = h.old;
}

-- One more request keeps every window within the limit, if what is left of the key's times is below
-- it.
pub count-admitted :
    (bound window now t : ℕ) (past times : List ℕ)
    → IsTrace window now past times
    → length times < bound
    → count_within window t past ≤ bound
    → count_within window t (past ++ now ∷ []) ≤ bound
count-admitted bound window now t past times h free within = elim (Bool-cases (ltb t now)) [
  | inl early ↦ omega (
    arith,
    count-append window t past (now ∷ []),
    count_future window now t (ltb→lt _ _ early),
    within,
  )
  | inr late ↦
      let reached : now ≤ t = ground arith in
      let gone_times : count_within window t past
          ≡ count_within window t h.gone + count_within window t times =
        ap (count_within window t) h.split ∙ count-append window t h.gone times in
      omega (
        arith,
        count-append window t past (now ∷ []),
        gone_times,
        count-old window now t h.gone h.old reached,
        count_le-length window t times,
        count_one window now t,
        free,
      )
]
