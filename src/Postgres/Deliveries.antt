-- ===== src/Postgres/Deliveries.antt =====
-- The callback outbox of the PostgreSQL store. Each statement reads the clock for itself.
use brunost_judge.Prelude.{
  ℕ, ◌+◌, ◌*◌, ◌^◌, String, Bool, true, false, not, ◌&&◌, Option, none, some, List, take, min, leb,
  ◌==◌, if◌then◌else◌,
}
use brunost_judge.Contracts.{is_terminal}
use brunost_judge.Sql.{select_where, first_where, update_where, rowcount, exists_where, order_by}
use brunost_judge.Store.{
  Result, ok, err, integrity_error, Execution, Delivery, JudgeStore, has_id, is_for, find_execution,
  lease_until,
}
use brunost_judge.Store.Deliveries.{
  new_delivery, upsert, is_undelivered, is_pending, update_deliveries, lease_is_free, claimed_by,
  delivered, holds_delivery, fails_for, failed_at, first_chars, replayed, for_terminal,
}

-- `enqueue_callback`
unfoldable pub enqueue_callback :
    String → String → Option String → ℕ → JudgeStore → Result (Unit {0} × JudgeStore)
unfolding exists_where upsert new_delivery
enqueue_callback i url token now s =
    if exists_where (has_id i) s.executions
    then ok (
      tt,
      record s {
        callback_deliveries =
            upsert (λ d. true) (λ d. record d { callback_url = url; callback_token = token })
              (new_delivery i url token now) s.callback_deliveries;
      },
    )
    else err integrity_error

-- `pending_callbacks`
unfoldable pub pending_callbacks : ℕ → ℕ → JudgeStore → List Delivery
unfolding select_where for_terminal order_by
pending_callbacks now limit s = take limit (
    order_by (λ a b. leb a.next_attempt_at b.next_attempt_at)
      (select_where (is_pending now s) s.callback_deliveries))

-- WHERE ... next_attempt_at <= due AND (lease_owner IS NULL OR ... lease_expires_at <= free)
abbrev pub can_take : String → ℕ → ℕ → Delivery → Bool
can_take i due free c =
    is_for i c && is_undelivered c && leb c.next_attempt_at due && lease_is_free free c

-- `claim_callback`
unfoldable pub claim_callback : String → String → ℕ → ℕ → ℕ → ℕ → JudgeStore → Bool × JudgeStore
unfolding rowcount update_where
claim_callback i w seconds now due free =
    update_deliveries (can_take i due free) (claimed_by w (lease_until now seconds))

-- `mark_callback_delivered`
unfoldable pub mark_callback_delivered : String → ℕ → JudgeStore → JudgeStore
unfolding update_where
mark_callback_delivered i now s = record s {
  callback_deliveries = update_where (is_for i) (delivered now) s.callback_deliveries;
}

-- `mark_callback_delivered_by_owner`
unfoldable pub mark_callback_delivered_by_owner :
    String → String → ℕ → JudgeStore → Bool × JudgeStore
unfolding update_where rowcount
mark_callback_delivered_by_owner i w now = update_deliveries (holds_delivery i w) (delivered now)

-- `attempts = int(row["attempts"]) if row else 0`
unfoldable pub attempts_so_far : String → JudgeStore → ℕ
unfolding first_where
attempts_so_far i s = elim (first_where (is_for i) s.callback_deliveries) [
  | none ↦ 0
  | some c ↦ c.attempts
]

-- `mark_callback_failed`
unfoldable pub mark_callback_failed :
    String → String → Option String → ℕ → JudgeStore → Bool × JudgeStore
unfolding update_where rowcount attempts_so_far first_chars
mark_callback_failed i error w now s =
    update_deliveries (fails_for i w)
      (failed_at (now + min 3600 (5 * 2 ^ min 8 (attempts_so_far i s)) * 1000000)
        (first_chars 2000 error))
      s

-- `execution is None or ... not in TERMINAL_STATUSES or not execution["callback_url"]`
unfoldable pub replay_target : Option Execution → Option (String × Execution)
replay_target none = none
replay_target (some e) = elim e.callback_url [
  | none ↦ none
  | some url ↦ if is_terminal e.status && not (url == "") then some (url, e) else none
]

-- `replay_callback`
unfoldable pub replay_callback : String → ℕ → JudgeStore → Bool × JudgeStore
unfolding first_where replay_target upsert new_delivery
replay_callback i now s = elim (replay_target (find_execution i s)) [
  | none ↦ (false, s)
  | some (url, e) ↦ (
    true,
    record s {
      callback_deliveries =
          upsert (λ d. true) (replayed url e.callback_token now)
            (new_delivery i url e.callback_token now) s.callback_deliveries;
    },
  )
]
