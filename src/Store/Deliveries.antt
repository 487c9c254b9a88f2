-- ===== src/Store/Deliveries.antt =====
-- The callback outbox of src/brunost_judge/store.py: one row of `callback_deliveries` for each
-- execution, with a delivery lease, retries with a growing delay, and an explicit replay.
pub mod Exclusive
pub mod Backoff
use brunost_judge.Prelude.{
  ℕ, ◌+◌, ◌*◌, ◌^◌, String, Bool, true, false, not, ◌&&◌, Option, none, some, List, [], ◌∷◌, ◌++◌,
  take, min, leb, nat_eq, ◌==◌, if◌then◌else◌,
}
use brunost_judge.Contracts.{is_terminal}
use brunost_judge.Sql.{select_where, first_where, update_where, rowcount, exists_where, order_by}
use brunost_judge.Store.{
  Result, ok, err, integrity_error, has_id, Execution, Delivery, JudgeStore, is_for, find_execution,
  lease_until, owned_by,
}

-- the columns that an INSERT names, with the defaults of the others
unfoldable pub new_delivery : String → String → Option String → ℕ → Delivery
new_delivery i url token now = record {
  execution_id = i;
  callback_url = url;
  callback_token = token;
  attempts = 0;
  next_attempt_at = now;
  delivered_at = none;
  last_error = none;
  lease_owner = none;
  lease_expires_at = none;
}

abbrev pub is_undelivered : Delivery → Bool
is_undelivered c = elim c.delivered_at [ none ↦ true | some t ↦ false ]

-- INSERT ... ON CONFLICT(execution_id) DO UPDATE SET f WHERE p
unfoldable pub upsert :
    (Delivery → Bool) → (Delivery → Delivery) → Delivery → List Delivery → List Delivery
unfolding exists_where update_where
upsert p f c rows =
    if exists_where (is_for c.execution_id) rows
    then update_where (λ d. is_for c.execution_id d && p d) f rows
    else rows ++ c ∷ []

-- the outbox insertion of `finish`, `cancel` and `claim_next`: a delivered row stays as it is
unfoldable pub notify : String → String → Option String → ℕ → List Delivery → List Delivery
unfolding upsert new_delivery
notify i url token now =
    upsert is_undelivered (λ d. record d { callback_url = url; callback_token = token })
      (new_delivery i url token now)

-- `if row["callback_url"]: INSERT ...`
unfoldable pub notify_if :
    String → Option String → Option String → ℕ → List Delivery → List Delivery
unfolding notify
notify_if i none token now rows = rows
notify_if i (some url) token now rows = if url == "" then rows else notify i url token now rows

-- the upsert of `enqueue_callback`
unfoldable pub enqueue_row : String → String → Option String → ℕ → JudgeStore → JudgeStore
unfolding upsert new_delivery
enqueue_row i url token now s = record s {
  callback_deliveries =
      upsert (λ d. true) (λ d. record d { callback_url = url; callback_token = token })
        (new_delivery i url token now) s.callback_deliveries;
}

-- `enqueue_callback`; the foreign key asks for an execution of that identifier
unfoldable pub enqueue_callback :
    String → String → Option String → ℕ → JudgeStore → Result (Unit {0} × JudgeStore)
unfolding exists_where enqueue_row
enqueue_callback i url token now s =
    if exists_where (has_id i) s.executions
    then ok (tt, enqueue_row i url token now s)
    else err integrity_error

-- the JOIN with a terminal execution
unfoldable pub for_terminal : JudgeStore → Delivery → Bool
unfolding first_where
for_terminal s c = elim (find_execution c.execution_id s) [
  | none ↦ false
  | some e ↦ is_terminal e.status
]

abbrev pub is_pending : ℕ → JudgeStore → Delivery → Bool
is_pending now s c = is_undelivered c && for_terminal s c && leb c.next_attempt_at now

-- `pending_callbacks`
unfoldable pub pending_callbacks : ℕ → ℕ → JudgeStore → List Delivery
unfolding select_where for_terminal order_by
pending_callbacks now limit s = take limit (
    order_by (λ a b. leb a.next_attempt_at b.next_attempt_at)
      (select_where (is_pending now s) s.callback_deliveries))

-- lease_owner IS NULL OR lease_expires_at IS NULL OR lease_expires_at <= now
abbrev pub lease_is_free : ℕ → Delivery → Bool
lease_is_free now c = elim c.lease_owner [
  | none ↦ true
  | some w ↦ elim c.lease_expires_at [ none ↦ true | some t ↦ leb t now ]
]

abbrev pub can_claim : String → ℕ → Delivery → Bool
can_claim i now c =
    is_for i c && is_undelivered c && leb c.next_attempt_at now && lease_is_free now c

abbrev pub claimed_by : String → ℕ → Delivery → Delivery
claimed_by w until c = record c { lease_owner = some w; lease_expires_at = some until }

-- an UPDATE of `callback_deliveries`, with `rowcount == 1`
abbrev pub update_deliveries :
    (Delivery → Bool) → (Delivery → Delivery) → JudgeStore → Bool × JudgeStore
update_deliveries p f s = (
  nat_eq (rowcount p s.callback_deliveries) 1,
  record s { callback_deliveries = update_where p f s.callback_deliveries },
)

-- `claim_callback`
unfoldable pub claim_callback : String → String → ℕ → ℕ → JudgeStore → Bool × JudgeStore
unfolding rowcount update_where
claim_callback i w seconds now =
    update_deliveries (can_claim i now) (claimed_by w (lease_until now seconds))

abbrev pub delivered : ℕ → Delivery → Delivery
delivered now c = record c {
  delivered_at = some now;
  last_error = none;
  lease_owner = none;
  lease_expires_at = none;
}

-- `mark_callback_delivered`
unfoldable pub mark_callback_delivered : String → ℕ → JudgeStore → JudgeStore
unfolding update_where rowcount
mark_callback_delivered i now s = (update_deliveries (is_for i) (delivered now) s).1

abbrev pub holds_delivery : String → String → Delivery → Bool
holds_delivery i w c = is_for i c && is_undelivered c && owned_by w c.lease_owner

-- `mark_callback_delivered_by_owner`
unfoldable pub mark_callback_delivered_by_owner :
    String → String → ℕ → JudgeStore → Bool × JudgeStore
unfolding update_where rowcount
mark_callback_delivered_by_owner i w now = update_deliveries (holds_delivery i w) (delivered now)

-- the seconds until the next attempt, `min(3600, 5 * 2 ** min(8, attempts))`
unfoldable pub retry_delay : ℕ → ℕ
retry_delay attempts = min 3600 (5 * 2 ^ min 8 attempts)

-- `_callback_attempts`
unfoldable pub callback_attempts : String → JudgeStore → ℕ
unfolding first_where
callback_attempts i s = elim (first_where (is_for i) s.callback_deliveries) [
  | none ↦ 0
  | some c ↦ c.attempts
]

-- `error[:2000]`
unfoldable pub first_chars : ℕ → String → String
first_chars n String.[] = String.[]
first_chars ℕ.zero (String.◌∷◌ c s) = String.[]
first_chars (ℕ.suc n) (String.◌∷◌ c s) = String.◌∷◌ c (first_chars n s)

-- `AND lease_owner=?`, if a worker is named
abbrev pub fails_for : String → Option String → Delivery → Bool
fails_for i none c = is_for i c
fails_for i (some w) c = is_for i c && owned_by w c.lease_owner

abbrev pub failed_at : ℕ → String → Delivery → Delivery
failed_at next message c = record c {
  attempts = c.attempts + 1;
  next_attempt_at = next;
  last_error = some message;
  lease_owner = none;
  lease_expires_at = none;
}

-- `mark_callback_failed`
unfoldable pub mark_callback_failed :
    String → String → Option String → ℕ → JudgeStore → Bool × JudgeStore
unfolding update_where rowcount retry_delay callback_attempts first_chars
mark_callback_failed i error w now s =
    update_deliveries (fails_for i w)
      (failed_at (now + retry_delay (callback_attempts i s) * 1000000) (first_chars 2000 error)) s

abbrev pub replayed : String → Option String → ℕ → Delivery → Delivery
replayed url token now d = record d {
  callback_url = url;
  callback_token = token;
  next_attempt_at = now;
  delivered_at = none;
  last_error = none;
  lease_owner = none;
  lease_expires_at = none;
}

-- `not execution["callback_url"]` returns False, and so does an execution that has not ended
unfoldable pub replay_url : Option String → Execution → String → ℕ → JudgeStore → Bool × JudgeStore
unfolding upsert new_delivery
replay_url none e i now s = (false, s)
replay_url (some url) e i now s =
    if is_terminal e.status && not (url == "")
    then (
      true,
      record s {
        callback_deliveries =
            upsert (λ d. true) (replayed url e.callback_token now)
              (new_delivery i url e.callback_token now) s.callback_deliveries;
      },
    )
    else (false, s)

unfoldable pub replay_row : Option Execution → String → ℕ → JudgeStore → Bool × JudgeStore
unfolding replay_url
replay_row none i now s = (false, s)
replay_row (some e) i now s = replay_url e.callback_url e i now s

-- `replay_callback`
unfoldable pub replay_callback : String → ℕ → JudgeStore → Bool × JudgeStore
unfolding first_where replay_row
replay_callback i now s = replay_row (find_execution i s) i now s
