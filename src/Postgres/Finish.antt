-- ===== src/Postgres/Finish.antt =====
-- `finish`, `renew_lease`, `cancel` and the queries on executions of the PostgreSQL store.
use brunost_judge.Prelude.{
  ℕ, String, Bool, false, not, Option, none, some, List, map, take, nat_eq, ◌==◌, if◌then◌else◌,
}
use brunost_judge.Platform.{Platform}
use brunost_judge.Text.{is_blank}
use brunost_judge.Contracts.{is_terminal, status_text, ExecutionResult}
use brunost_judge.Sql.{select_where, order_by, first_where, update_where, rowcount}
use brunost_judge.Store.{
  Result, ok, err, data_error, ◌>>=◌, ◌>>◌, require, missing_worker_id, not_terminal, Execution,
  JudgeStore, has_id, find_execution, is_queued, lease_until,
}
use brunost_judge.Store.Submit.{result_of, get_execution}
use brunost_judge.Store.Deliveries.{notify_if}
use brunost_judge.Postgres.Columns.{Columns}
use brunost_judge.Store.Finish.{
  validate_finish_result, holds_lease, finished, update_executions, notify_updated, can_renew,
  renewed, cancellation, newest_first, has_status, bounded_limit,
}

-- the UPDATE, whose lease test reads NOW() of the database, and the outbox row
unfoldable pub publish : String → ExecutionResult → String → ℕ → ℕ → ℕ → JudgeStore → JudgeStore
unfolding update_where rowcount first_where
publish i r w db_now now later s =
    let written = update_executions (holds_lease i w db_now) (finished r now) s in
    record written {
      callback_deliveries =
          notify_updated (rowcount (holds_lease i w db_now) s.executions) i later written;
    }

-- the result after the transaction
unfoldable pub published :
    String → ExecutionResult → String → ℕ → ℕ → ℕ → JudgeStore → Option ExecutionResult × JudgeStore
unfolding publish rowcount get_execution
published i r w db_now now later s =
    let s' = publish i r w db_now now later s in
    if nat_eq (rowcount (holds_lease i w db_now) s.executions) 0
    then (none, s')
    else (get_execution i s', s')

-- the result as the UPDATE stores it, whichever row it hits
unfoldable pub column_outcome : Columns → ExecutionResult → Result ExecutionResult
column_outcome cols r = elim (cols.outcome r) [ none ↦ err data_error | some stored ↦ ok stored ]

unfoldable pub finish_existing :
    Columns
    → Platform
    → String
    → ExecutionResult
    → String
    → ℕ
    → ℕ
    → ℕ
    → JudgeStore
    → Option Execution
    → Result (Option ExecutionResult × JudgeStore)
unfolding validate_finish_result column_outcome published
finish_existing cols lib i r w db_now now later s none = ok (none, s)
finish_existing cols lib i r w db_now now later s (some e) = do
  validate_finish_result lib i e.task_ref r
  stored ← column_outcome cols r
  ok (published i stored w db_now now later s)

-- `finish`
unfoldable pub finish :
    Columns
    → Platform
    → String
    → ExecutionResult
    → String
    → ℕ
    → ℕ
    → ℕ
    → JudgeStore
    → Result (Option ExecutionResult × JudgeStore)
unfolding finish_existing first_where
finish cols lib i r w db_now now later s = do
  require missing_worker_id (not (is_blank w))
  require not_terminal (is_terminal r.status)
  finish_existing cols lib i r w db_now now later s (find_execution i s)

-- `renew_lease`
unfoldable pub renew_lease : String → String → ℕ → ℕ → JudgeStore → Bool × JudgeStore
unfolding update_where rowcount
renew_lease i w seconds now s = (
  nat_eq (rowcount (can_renew i w now) s.executions) 1,
  update_executions (can_renew i w now) (renewed (lease_until now seconds) now) s,
)

-- the UPDATE of `cancel`, and the outbox row of an execution that was waiting
unfoldable pub cancel_existing : String → ℕ → ℕ → JudgeStore → Execution → JudgeStore
unfolding update_where notify_if
cancel_existing i now later s e =
    let s' = update_executions (has_id i) (cancellation now) s in
    if is_queued e.status
    then record s' {
      callback_deliveries =
          notify_if i e.callback_url e.callback_token later s'.callback_deliveries;
    }
    else s'

-- `cancel`
unfoldable pub cancel : String → ℕ → ℕ → JudgeStore → Option ExecutionResult × JudgeStore
unfolding first_where cancel_existing get_execution
cancel i now later s = elim (find_execution i s) [
  | none ↦ (none, s)
  | some e ↦ let s' = cancel_existing i now later s e in (get_execution i s', s')
]

-- `is_cancel_requested`
unfoldable pub is_cancel_requested : String → JudgeStore → Bool
unfolding first_where
is_cancel_requested i s = elim (find_execution i s) [ none ↦ false | some e ↦ e.cancel_requested ]

-- `list_executions`; an empty status asks for no filter
unfoldable pub list_executions : Option String → ℕ → JudgeStore → List ExecutionResult
unfolding newest_first select_where order_by result_of status_text
list_executions status limit s =
    let rows : List Execution = elim status [
      | none ↦ s.executions
      | some t ↦ if t == "" then s.executions else select_where (has_status t) s.executions
    ] in
    map result_of (take (bounded_limit limit) (order_by newest_first rows))
