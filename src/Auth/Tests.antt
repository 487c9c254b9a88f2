-- ===== src/Auth/Tests.antt =====
-- Requests of one key against a limit of two per minute.
use brunost_judge.Prelude.{ℕ, ◌≤◌, ◌≡◌, refl, true, List, [], ◌∷◌, arith}
use brunost_judge.Prelude.Int.{pos}
use brunost_judge.Auth.RateLimiter.{RateLimiter, entry, empty_limiter, limit_of, times_of, allow}
use brunost_judge.Auth.RateLimiter.Window.{Request, IsOrderly, admitted, admitted_within_limit}
use brunost_judge.Auth.RateLimiter.Trace.{count_within}
use brunost_judge.Auth.RateLimiter.Retry.{refused_comes_back}

abbrev request : ℕ → Request
request now = record { bucket = "submit"; key = "portal"; now = now }

abbrev requests : List Request
requests = request 1000000 ∷ request 2000000 ∷ request 3000000 ∷ request 61500000 ∷ []

admitted_within_limit_example :
    count_within 60000000 61500000
      (admitted (pos 2) 60000000 "submit" "portal" requests empty_limiter)
    ≤ limit_of (pos 2)
admitted_within_limit_example =
    admitted_within_limit (pos 2) 60000000 "submit" "portal" requests
      (unfold IsOrderly allow in
        (
          omega arith,
          omega arith,
          (omega arith, omega arith, (omega arith, omega arith, (omega arith, omega arith, tt))),
        ))
      61500000

admitted_requests :
    admitted (pos 2) 60000000 "submit" "portal" requests empty_limiter
    ≡ 1000000 ∷ 2000000 ∷ 61500000 ∷ []
unfolding admitted
admitted_requests = refl

abbrev full : RateLimiter
full = record { events = entry "submit" "portal" (1000000 ∷ 2000000 ∷ []) ∷ [] }

refused_comes_back_example :
    (allow "portal" "submit"
      (pos 2)
      60000000
      61001000
      (allow "portal" "submit" (pos 2) 60000000 3000000 full).1).0.0
    ≡ true
refused_comes_back_example =
    refused_comes_back "portal" "submit" (pos 2) 60000000 3000000 61001000 58 full
      (allow "portal" "submit" (pos 2) 60000000 3000000 full).1
      (unfold times_of limit_of in omega arith) (unfold allow in refl) refl (omega arith)
