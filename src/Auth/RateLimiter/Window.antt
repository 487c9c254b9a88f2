-- ===== src/Auth/RateLimiter/Window.antt =====
-- Within any window the limiter lets through at most as many requests of a key as the limit says.
use mathlib.Core.List.{append_assoc, append-nil}
use brunost_judge.Prelude.{
  ℕ, ◌≤◌, ◌<◌, String, ◌≡◌, refl, sym, ap, ◌∙◌, inl, inr, Bool, true, false, ◌&&◌, Bool-cases,
  ==→eq, List, [], ◌∷◌, ◌++◌, length, leb, arith, ◌==◌, if◌then◌else◌,
}
use brunost_judge.Prelude.Int.{ℤ}
use brunost_judge.Auth.RateLimiter.{
  RateLimiter, empty_limiter, max_keys, limit_of, times_of, prune, allow,
}
use brunost_judge.Auth.RateLimiter.Entries.{refused, admitted_call, others_kept}
use brunost_judge.Auth.RateLimiter.Trace.{
  count_within, IsTrace, old_later, IsTrace-prune, IsTrace-add, count-admitted,
}

pub record Request : Type 0 where
  pub bucket : String
  pub key : String
  pub now : ℕ

abbrev pub is_request : String → String → Request → Bool
is_request b k r = b == r.bucket && k == r.key

module _ (limit : ℤ) (window : ℕ) where
  abbrev pub after_request : Request → RateLimiter → RateLimiter
  after_request r s = (allow r.key r.bucket limit window r.now s).1

  -- the times of the requests of a key that are let through
  unfoldable pub admitted : String → String → List Request → RateLimiter → List ℕ
  unfolding allow
  admitted b k [] s = []
  admitted b k (r ∷ rs) s =
      let rest = admitted b k rs (after_request r s) in
      if is_request b k r && (allow r.key r.bucket limit window r.now s).0.0
      then r.now ∷ rest
      else rest

  -- the clock does not go back, and fewer than 10000 keys are known at each request
  unfoldable pub IsOrderly : ℕ → List Request → RateLimiter → Type 0
  IsOrderly last [] s = Unit
  IsOrderly last (r ∷ rs) s =
      (last ≤ r.now) × (length s.events < max_keys) × IsOrderly r.now rs (after_request r s)

module _ (limit : ℤ) (window : ℕ) (b k : String) where
  abbrev IsWithin : List ℕ → Type 0
  IsWithin past = (t : ℕ) → count_within window t past ≤ limit_of limit

  -- a request: what was let through before it, and what was let through with it
  record IsStep (r : Request) (s : RateLimiter) (past : List ℕ) : Type 0 where
    now_past : List ℕ
    trace : IsTrace window r.now now_past (times_of b k (after_request limit window r s).events)
    within : IsWithin now_past
    continues :
        (rs : List Request)
        → past ++ admitted limit window b k (r ∷ rs) s
          ≡ now_past ++ admitted limit window b k rs (after_request limit window r s)

  module _ (r : Request) (s : RateLimiter) (last : ℕ) (past : List ℕ) (le : last ≤ r.now)
      (room : length s.events < max_keys) (h : IsTrace window last past (times_of b k s.events))
      (w : IsWithin past) where
    pruned : IsTrace window r.now past (prune window r.now (times_of b k s.events))
    pruned = IsTrace-prune window last r.now past (times_of b k s.events) le h

    another_key : is_request b k r ≡ false → IsStep r s past
    another_key other = record {
      now_past = past;
      trace = rw (others_kept r.key r.bucket limit window r.now s b k other room) (record {
        gone = h.gone;
        split = h.split;
        old = old_later window last r.now h.gone le h.old;
      });
      within = w;
      continues = λ rs. unfold admitted in rw other refl;
    }

    module _ (same : is_request b k r ≡ true) where
      same_times : (es : RateLimiter) → times_of r.bucket r.key es.events ≡ times_of b k es.events
      same_times es =
          let sb : b ≡ r.bucket = ==→eq _ _ (ground arith) in
          let sk : k ≡ r.key = ==→eq _ _ (ground arith) in rw (sb, sk) refl

      full_window :
          leb (limit_of limit) (length (prune window r.now (times_of r.bucket r.key s.events)))
            ≡ true
          → IsStep r s past
      full_window full =
          let (out, left) = refused r.key r.bucket limit window r.now s full in
          record {
            now_past = past;
            trace =
                rw (sym (same_times (after_request limit window r s)) ∙ left, same_times s) pruned;
            within = w;
            continues = λ rs. unfold admitted in rw (same, out) refl;
          }

      below :
          leb (limit_of limit) (length (prune window r.now (times_of b k s.events))) ≡ false
          → length (prune window r.now (times_of b k s.events)) < limit_of limit
      below free = ground arith

      free_window :
          leb (limit_of limit) (length (prune window r.now (times_of r.bucket r.key s.events)))
            ≡ false
          → IsStep r s past
      free_window free =
          let (let_in, left) = admitted_call r.key r.bucket limit window r.now s free room in
          record {
            now_past = past ++ r.now ∷ [];
            trace =
                rw (sym (same_times (after_request limit window r s)) ∙ left, same_times s)
                  (IsTrace-add window r.now past (prune window r.now (times_of b k s.events))
                    pruned);
            within = λ t.
                count-admitted (limit_of limit) window r.now t past
                  (prune window r.now (times_of b k s.events)) pruned
                  (below (
                    ap (λ ts. leb (limit_of limit) (length (prune window r.now ts)))
                      (sym (same_times s))
                    ∙ free))
                  (w t);
            continues = λ rs.
                unfold admitted in
                rw (same, let_in)
                  (sym (
                    append_assoc past (r.now ∷ [])
                      (admitted limit window b k rs (after_request limit window r s))));
          }

    IsStep-of : IsStep r s past
    IsStep-of = elim (Bool-cases (is_request b k r)) [
      | inr other ↦ another_key other
      | inl same ↦
          elim (Bool-cases (
            leb (limit_of limit)
              (length (prune window r.now (times_of r.bucket r.key s.events))))) [
                | inl full ↦ full_window same full
                | inr free ↦ free_window same free
              ]
    ]

  -- the requests that follow a state whose times are the rest of `past`
  from_here :
      (rs : List Request) (s : RateLimiter) (last : ℕ) (past : List ℕ)
      → IsOrderly limit window last rs s
      → IsTrace window last past (times_of b k s.events)
      → IsWithin past
      → IsWithin (past ++ admitted limit window b k rs s)
  unfolding IsOrderly
  from_here [] s last past o h w t = unfold admitted in rw (append-nil past) (w t)
  from_here (r ∷ rs) s last past o h w t =
      let step = IsStep-of r s last past o.0 o.1 h w in
      rw (step.continues rs) (
        from_here rs (after_request limit window r s) r.now step.now_past o.2 step.trace step.within
          t)

-- From an empty limiter, if the clock does not go back and fewer than 10000 keys are known at each
-- request, the requests of a key that are let through within any window are at most as many as the
-- limit says.
pub admitted_within_limit :
    (limit : ℤ) (window : ℕ) (b k : String) (rs : List Request)
    → IsOrderly limit window 0 rs empty_limiter
    → (t : ℕ) → count_within window t (admitted limit window b k rs empty_limiter) ≤ limit_of limit
admitted_within_limit limit window b k rs o =
    from_here limit window b k rs empty_limiter 0 [] o
      (record { gone = []; split = unfold times_of in refl; old = tt })
      (λ t. unfold count_within in omega arith)
