-- ===== src/Auth/RateLimiter/Entries.antt =====
-- The dictionary of the limiter: what a call leaves under the key that called, and under the others.
use brunost_judge.Prelude.{
  ℕ, ◌+◌, ◌≤◌, ◌<◌, suc, String, ◌≡◌, refl, ap, ◌∙◌, inl, inr, Bool, true, false, not, ◌&&◌,
  Bool-cases, ==→eq, none, List, [], ◌∷◌, ◌++◌, length, length-append, leb, arith, ◌==◌, eq_refl,
  eq_iff, Option-cases,
}
use brunost_judge.Prelude.Int.{ℤ}
use brunost_judge.Sql.{first_where, select_where, update_where, exists_where}
use brunost_judge.Sql.Update.{
  first-update, first-append, exists-first, exists-append, exists-update, first-satisfies,
}
use brunost_judge.Auth.RateLimiter.{
  Entry, RateLimiter, max_keys, limit_of, is_entry, times_of, prune, entry, set_times, pop_key,
  store_pruned, evict, decide, allow,
}

length-update :
    (p : Entry → Bool) (f : Entry → Entry) (es : List Entry)
    → length (update_where p f es) ≡ length es
unfolding update_where
length-update p f [] = refl
length-update p f (e ∷ es) = ap suc (length-update p f es)

length-select : (p : Entry → Bool) (es : List Entry) → length (select_where p es) ≤ length es
unfolding select_where
length-select p [] = omega arith
length-select p (e ∷ es) = ground (arith, length-select p es)

module _ (b k : String) where
  -- An entry of the pair is no entry of another pair.
  other_entry :
      (c j : String)
      → (c == b && j == k) ≡ false
      → (e : Entry) → is_entry b k e ≡ true
      → is_entry c j e ≡ false
  other_entry c j differs e here =
      rw
        (
          ==→eq e.bucket b (ground arith),
          ==→eq e.key k (ground arith),
          same_test b c,
          same_test k j,
        )
        differs
    where
      same_test : (x y : String) → (x == y) ≡ (y == x)
      same_test x y = ground (arith, eq_iff x y, eq_iff y x)

  pub first-pop : (es : List Entry) → first_where (is_entry b k) (pop_key b k es) ≡ none
  unfolding first_where pop_key select_where
  first-pop [] = refl
  first-pop (e ∷ es) = elim (Bool-cases (is_entry b k e)) [
    | inl hit ↦ rw hit (first-pop es)
    | inr miss ↦ ground (arith, first-pop es)
  ]

  pub times-set : (ts : List ℕ) (es : List Entry) → times_of b k (set_times b k ts es) ≡ ts
  unfolding times_of set_times first_where
  times-set ts es = elim (Option-cases (first_where (is_entry b k) es)) [
    | inl new ↦ ground (
      arith,
      exists-first (is_entry b k) es,
      first-append (is_entry b k) es (entry b k ts ∷ []),
      eq_refl b,
      eq_refl k,
    )
    | inr (e, known) ↦ ground (
      arith,
      exists-first (is_entry b k) es,
      first-satisfies (is_entry b k) es e,
      first-update (is_entry b k) (is_entry b k) (λ e. record e { times = ts }) (λ e. refl) es,
    )
  ]

  pub exists-set :
      (ts : List ℕ) (es : List Entry) → exists_where (is_entry b k) (set_times b k ts es) ≡ true
  unfolding set_times exists_where
  exists-set ts es = ground (
    arith,
    exists-update (is_entry b k) (is_entry b k) (λ e. record e { times = ts }) (λ e. refl) es,
    exists-append (is_entry b k) es (entry b k ts ∷ []),
    eq_refl b,
    eq_refl k,
  )

  times-store : (ts : List ℕ) (es : List Entry) → times_of b k (store_pruned b k ts es) ≡ ts
  unfolding store_pruned
  times-store [] es =
      unfold times_of first_where in
      ground (
        arith,
        first-append (is_entry b k) (pop_key b k es) (entry b k [] ∷ []),
        first-pop es,
        eq_refl b,
        eq_refl k,
      )
  times-store (t ∷ ts) es = times-set (t ∷ ts) es

  exists-store :
      (ts : List ℕ) (es : List Entry) → exists_where (is_entry b k) (store_pruned b k ts es) ≡ true
  unfolding store_pruned
  exists-store [] es =
      unfold exists_where in
      ground (
        arith,
        exists-append (is_entry b k) (pop_key b k es) (entry b k [] ∷ []),
        eq_refl b,
        eq_refl k,
      )
  exists-store (t ∷ ts) es = exists-set (t ∷ ts) es

  length-set : (ts : List ℕ) (es : List Entry) → length (set_times b k ts es) ≤ length es + 1
  unfolding set_times
  length-set ts es = ground (
    arith,
    length-update (is_entry b k) (λ e. record e { times = ts }) es,
    length-append es (entry b k ts ∷ []),
  )

  length-set_known :
      (ts : List ℕ) (es : List Entry)
      → exists_where (is_entry b k) es ≡ true
      → length (set_times b k ts es) ≡ length es
  unfolding set_times
  length-set_known ts es known =
      rw known (length-update (is_entry b k) (λ e. record e { times = ts }) es)

  length-store : (ts : List ℕ) (es : List Entry) → length (store_pruned b k ts es) ≤ length es + 1
  unfolding store_pruned pop_key
  length-store [] es = omega (
    arith,
    length-append (pop_key b k es) (entry b k [] ∷ []),
    length-select (λ e. not (is_entry b k e)) es,
  )
  length-store (t ∷ ts) es = length-set (t ∷ ts) es

  -- With room for one more key, no key is evicted.
  evict_none :
      (ts us : List ℕ) (es : List Entry)
      → length es < max_keys
      → evict b k (set_times b k us (store_pruned b k ts es))
        ≡ set_times b k us (store_pruned b k ts es)
  unfolding evict
  evict_none ts us es room =
      ground (
        arith,
        length-set_known us (store_pruned b k ts es) (exists-store ts es),
        length-store ts es,
      )

  module _ (c j : String) (differs : (c == b && j == k) ≡ false) where
    new_other : (ts : List ℕ) → is_entry c j (entry b k ts) ≡ false
    new_other ts = other_entry c j differs (entry b k ts) (ground (arith, eq_refl b, eq_refl k))

    times-append_other :
        (ts : List ℕ) (es : List Entry) → times_of c j (es ++ entry b k ts ∷ []) ≡ times_of c j es
    unfolding times_of first_where
    times-append_other ts es =
        ground (arith, first-append (is_entry c j) es (entry b k ts ∷ []), new_other ts)

    times-update_other :
        (ts : List ℕ) (es : List Entry)
        → times_of c j (update_where (is_entry b k) (λ e. record e { times = ts }) es)
          ≡ times_of c j es
    unfolding times_of
    times-update_other ts es = elim (Option-cases (first_where (is_entry c j) es)) [
      | inl new ↦ ground (
        arith,
        first-update (is_entry c j) (is_entry b k) (λ e. record e { times = ts }) (λ e. refl) es,
      )
      | inr (e, known) ↦ ground (
        arith,
        first-update (is_entry c j) (is_entry b k) (λ e. record e { times = ts }) (λ e. refl) es,
        first-satisfies (is_entry c j) es e,
        other_entry c j differs e,
      )
    ]

    times-set_other :
        (ts : List ℕ) (es : List Entry) → times_of c j (set_times b k ts es) ≡ times_of c j es
    unfolding set_times
    times-set_other ts es = elim (Bool-cases (exists_where (is_entry b k) es)) [
      | inl known ↦ rw known (times-update_other ts es)
      | inr new ↦ rw new (times-append_other ts es)
    ]

    pop_other :
        (es : List Entry)
        → first_where (is_entry c j) (pop_key b k es) ≡ first_where (is_entry c j) es
    unfolding first_where pop_key select_where
    pop_other [] = refl
    pop_other (e ∷ es) = elim (Bool-cases (is_entry b k e)) [
      | inl hit ↦ rw (hit, other_entry c j differs e hit) (pop_other es)
      | inr miss ↦ rw miss (ground (arith, pop_other es))
    ]

    times-store_other :
        (ts : List ℕ) (es : List Entry) → times_of c j (store_pruned b k ts es) ≡ times_of c j es
    unfolding store_pruned
    times-store_other [] es =
        times-append_other [] (pop_key b k es) ∙ (unfold times_of in ground (arith, pop_other es))
    times-store_other (t ∷ ts) es = times-set_other (t ∷ ts) es

module _ (k b : String) (limit : ℤ) (window now : ℕ) (s : RateLimiter) where
  abbrev pub left_of : List ℕ
  left_of = prune window now (times_of b k s.events)

  -- A full window: the call is refused, and what is left of the key's times is stored.
  pub refused :
      leb (limit_of limit) (length left_of) ≡ true
      → ((allow k b limit window now s).0.0 ≡ false)
        × (times_of b k (allow k b limit window now s).1.events ≡ left_of)
  unfolding allow decide
  refused full = rw full (refl, times-store b k left_of s.events)

  -- Otherwise the call is let through, and its time is stored behind the others.
  pub admitted_call :
      leb (limit_of limit) (length left_of) ≡ false
      → length s.events < max_keys
      → ((allow k b limit window now s).0.0 ≡ true)
        × (times_of b k (allow k b limit window now s).1.events ≡ left_of ++ now ∷ [])
  unfolding allow decide
  admitted_call free room =
      rw (free, evict_none b k left_of (left_of ++ now ∷ []) s.events room)
        (refl, times-set b k (left_of ++ now ∷ []) (store_pruned b k left_of s.events))

  -- The times of the other keys stay as they are.
  pub others_kept :
      (c j : String)
      → (c == b && j == k) ≡ false
      → length s.events < max_keys
      → times_of c j (allow k b limit window now s).1.events ≡ times_of c j s.events
  unfolding allow decide
  others_kept c j differs room = elim (Bool-cases (leb (limit_of limit) (length left_of))) [
    | inl full ↦ rw full (times-store_other b k c j differs left_of s.events)
    | inr free ↦
        rw (free, evict_none b k left_of (left_of ++ now ∷ []) s.events room)
          (times-set_other b k c j differs (left_of ++ now ∷ []) (store_pruned b k left_of s.events)
            ∙ times-store_other b k c j differs left_of s.events)
  ]
