-- ===== src/Auth/RateLimiter/Retry.antt =====
-- A refused request that comes back after the time it was told is let through.
use brunost_judge.Prelude.{
  ℕ, ◌+◌, ◌*◌, ◌≤◌, ◌<◌, String, ◌≡◌, sym, ◌∙◌, true, false, List, [], ◌∷◌, length, leb, arith,
}
use brunost_judge.Prelude.Int.{ℤ, pos, negsuc}
use brunost_judge.Auth.RateLimiter.{
  RateLimiter, limit_of, times_of, prune, retry_after, decide, allow,
}
use brunost_judge.Auth.RateLimiter.Entries.{refused}

limit_of_pos : (limit : ℤ) → 1 ≤ limit_of limit
unfolding limit_of
limit_of_pos (pos n) = omega arith
limit_of_pos (negsuc n) = omega arith

length-prune : (window now : ℕ) (ts : List ℕ) → length (prune window now ts) ≤ length ts
unfolding prune
length-prune window now [] = omega arith
length-prune window now (t ∷ ts) = ground (arith, length-prune window now ts)

-- the wait is short of the time that is left by less than a millisecond
wait_is_enough :
    (window now t : ℕ) (ts : List ℕ)
    → t + window ≤ now + retry_after window now (t ∷ ts) * 1000000 + 1000
unfolding retry_after
wait_is_enough window now t ts = omega arith

refused_full :
    (k b : String) (limit : ℤ) (window now : ℕ) (s : RateLimiter) (wait : ℕ)
    → (allow k b limit window now s).0 ≡ (false, wait)
    → (leb (limit_of limit) (length (prune window now (times_of b k s.events))) ≡ true)
      × (wait ≡ retry_after window now (prune window now (times_of b k s.events)))
unfolding allow decide
refused_full k b limit window now s wait h = ground arith

module _ (k b : String) (limit : ℤ) (window : ℕ) where
  first_leaves :
      (now later : ℕ) (ts : List ℕ)
      → limit_of limit ≤ length ts
      → length ts ≤ limit_of limit
      → now + retry_after window now ts * 1000000 + 1000 ≤ later
      → length (prune window later ts) < limit_of limit
  first_leaves now later [] full fits late = omega (arith, limit_of_pos limit)
  first_leaves now later (t ∷ ts) full fits late =
      unfold prune in ground (arith, wait_is_enough window now t ts, length-prune window later ts)

  allowed_below :
      (now : ℕ) (s : RateLimiter)
      → length (prune window now (times_of b k s.events)) < limit_of limit
      → (allow k b limit window now s).0.0 ≡ true
  unfolding allow decide
  allowed_below now s free = ground arith

  -- A key whose stored times are at most as many as the limit, that is refused with a wait in seconds,
  -- and that has no request in the meantime, is let through once the wait and a millisecond have
  -- passed.
  pub refused_comes_back :
      (now later wait : ℕ) (s s' : RateLimiter)
      → length (times_of b k s.events) ≤ limit_of limit
      → (allow k b limit window now s).0 ≡ (false, wait)
      → times_of b k s'.events ≡ times_of b k (allow k b limit window now s).1.events
      → now + wait * 1000000 + 1000 ≤ later
      → (allow k b limit window later s').0.0 ≡ true
  refused_comes_back now later wait s s' fits out kept late =
      let (full, told) = refused_full k b limit window now s wait out in
      let left = kept ∙ (refused k b limit window now s full).1 in
      allowed_below later s' (
        rw left (
          first_leaves now later (prune window now (times_of b k s.events)) (ground arith)
            (omega (arith, length-prune window now (times_of b k s.events))) (rw (sym told) late)))
