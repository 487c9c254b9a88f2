-- ===== src/Auth/RateLimiter.antt =====
-- `RateLimiter` of src/brunost_judge/auth.py: for each bucket and key, the times of the requests that
-- were let through. A time is a number of microseconds, and sums of times are exact. The dictionary
-- is the list of its entries in the order of insertion. The lock makes a call one step.
pub mod Entries
pub mod Trace
pub mod Window
pub mod Retry
use brunost_judge.Prelude.{
  ℕ, ◌+◌, ◌-◌, ◌/◌, max, String, Bool, true, false, not, ◌&&◌, Option, none, some, List, [], ◌∷◌,
  ◌++◌, length, leb, ltb, ◌==◌, if◌then◌else◌,
}
use brunost_judge.Prelude.Int.{ℤ, pos, negsuc}
use brunost_judge.Sql.{first_where, select_where, update_where, exists_where}

pub record Entry : Type 0 where
  pub bucket : String
  pub key : String
  pub times : List ℕ

-- `_events`
pub record RateLimiter : Type 0 where
  pub events : List Entry

abbrev pub empty_limiter : RateLimiter
empty_limiter = record { events = [] }

-- `_max_keys`
abbrev pub max_keys : ℕ
max_keys = 10000

-- `max(1, int(limit))`
unfoldable pub limit_of : ℤ → ℕ
limit_of (pos n) = max 1 n
limit_of (negsuc n) = 1

abbrev pub is_entry : String → String → Entry → Bool
is_entry b k e = e.bucket == b && e.key == k

-- `self._events[event_key]`, of a defaultdict
unfoldable pub times_of : String → String → List Entry → List ℕ
unfolding first_where
times_of b k es = elim (first_where (is_entry b k) es) [ none ↦ [] | some e ↦ e.times ]

-- the loop that pops what is older than the window
unfoldable pub prune : ℕ → ℕ → List ℕ → List ℕ
prune window now [] = []
prune window now (t ∷ ts) =
    let rest = prune window now ts in if leb (t + window) now then rest else t ∷ ts

abbrev pub entry : String → String → List ℕ → Entry
entry b k ts = record { bucket = b; key = k; times = ts }

-- the deque of a key is replaced in its place, or added behind the others
unfoldable pub set_times : String → String → List ℕ → List Entry → List Entry
unfolding exists_where update_where
set_times b k ts es =
    if exists_where (is_entry b k) es
    then update_where (is_entry b k) (λ e. record e { times = ts }) es
    else es ++ entry b k ts ∷ []

-- `self._events.pop(event_key, None)`
unfoldable pub pop_key : String → String → List Entry → List Entry
unfolding select_where
pop_key b k = select_where (λ e. not (is_entry b k e))

-- the dictionary after the pruning: an empty deque is put behind the others
unfoldable pub store_pruned : String → String → List ℕ → List Entry → List Entry
unfolding set_times pop_key
store_pruned b k [] es = pop_key b k es ++ entry b k [] ∷ []
store_pruned b k (t ∷ ts) es = set_times b k (t ∷ ts) es

-- `max(1, int(events[0] + window_seconds - now + 0.999))`; the limit is positive, so a full deque has
-- a first entry
unfoldable pub retry_after : ℕ → ℕ → List ℕ → ℕ
retry_after window now [] = 1
retry_after window now (t ∷ ts) = max 1 ((t + window + 999000 - now) / 1000000)

-- `item[1][-1] if item[1] else float("-inf")`
unfoldable pub last_time : List ℕ → Option ℕ
last_time [] = none
last_time (t ∷ ts) = elim (last_time ts) [ none ↦ some t | some u ↦ some u ]

unfoldable pub not_after : Option ℕ → Option ℕ → Bool
not_after none u = true
not_after (some t) none = false
not_after (some t) (some u) = leb t u

-- `min(candidates, key=...)`, the first of the least
unfoldable pub oldest : List Entry → Option Entry
unfolding last_time not_after
oldest [] = none
oldest (e ∷ es) = elim (oldest es) [
  | none ↦ some e
  | some f ↦ if not_after (last_time e.times) (last_time f.times) then some e else some f
]

-- the eviction of the key that was idle longest, if there are too many keys
unfoldable pub evict : String → String → List Entry → List Entry
unfolding pop_key oldest
evict b k es =
    if ltb max_keys (length es)
    then elim (oldest (pop_key b k es)) [ none ↦ es | some e ↦ pop_key e.bucket e.key es ]
    else es

-- `allow`, with the clock's reading, for the deque that is left of the key
unfoldable pub decide : String → String → ℕ → ℕ → ℕ → List ℕ → List Entry → (Bool × ℕ) × RateLimiter
unfolding store_pruned set_times retry_after evict
decide k b bound window now ts es =
    if leb bound (length ts)
    then ((false, retry_after window now ts), record { events = store_pruned b k ts es })
    else (
      (true, 0),
      record { events = evict b k (set_times b k (ts ++ now ∷ []) (store_pruned b k ts es)) },
    )

unfoldable pub allow : String → String → ℤ → ℕ → ℕ → RateLimiter → (Bool × ℕ) × RateLimiter
unfolding times_of prune limit_of decide
allow k b limit window now s =
    decide k b (limit_of limit) window now (prune window now (times_of b k s.events)) s.events
