-- ===== src/Store/Finish.antt =====
-- `finish`, `renew_lease`, `cancel`, `is_cancel_requested`, `list_executions` and `stats` of
-- src/brunost_judge/store.py.
pub mod Fencing
pub mod Published
use brunost_judge.Prelude.{
  ℕ, String, Bool, true, false, not, ◌&&◌, Option, none, some, List, [], ◌∷◌, map, take, min, max,
  leb, ltb, nat_eq, ◌==◌, if◌then◌else◌,
}
use brunost_judge.Json.{null, str, obj, end}
use brunost_judge.Text.{is_blank}
use brunost_judge.Platform.{Platform}
use brunost_judge.Conformance.{validate_result_payload}
use brunost_judge.Contracts.{Status, is_terminal, status_text, ExecutionResult, as_dict}
use brunost_judge.Sql.{select_where, first_where, update_where, rowcount, order_by}
use brunost_judge.Store.{
  Result, ok, err, ◌>>=◌, ◌>>◌, require, overflow, missing_worker_id, not_terminal, wrong_execution,
  wrong_task, invalid_result, type_error, Execution, Delivery, JudgeStore, has_id, find_execution,
  is_queued, is_running, lease_until, owned_by,
}
use brunost_judge.Store.Submit.{result_of, get_execution}
use brunost_judge.Store.Deliveries.{notify_if, for_terminal, is_undelivered}

unfoldable pub unless_errors : Option (List String) → Result (Unit {0})
unless_errors none = err type_error
unless_errors (some []) = ok tt
unless_errors (some (e ∷ es)) = err (invalid_result (e ∷ es))

-- `_validate_finish_result`
unfoldable pub validate_finish_result :
    Platform → String → String → ExecutionResult → Result (Unit {0})
unfolding unless_errors
validate_finish_result lib execution_id task_ref r = do
  require wrong_execution (r.execution_id == execution_id)
  require wrong_task (r.task_ref == task_ref)
  unless_errors (validate_result_payload lib (as_dict r))

-- lease_expires_at IS NOT NULL AND lease_expires_at >= now
abbrev pub lease_live : ℕ → Option ℕ → Bool
lease_live now lease = elim lease [ none ↦ false | some t ↦ leb now t ]

-- the WHERE clause of `finish`
abbrev pub holds_lease : String → String → ℕ → Execution → Bool
holds_lease i w now e =
    has_id i e && owned_by w e.worker_id && is_running e.status && lease_live now e.lease_expires_at

-- the SET clause of `finish`
abbrev pub finished : ExecutionResult → ℕ → Execution → Execution
finished r now e = record e {
  status = if e.cancel_requested then Status.canceled else r.status;
  score = if e.cancel_requested then null else r.score;
  metrics = if e.cancel_requested then obj end else r.metrics;
  scores = if e.cancel_requested then obj end else r.scores;
  winner = if e.cancel_requested then null else r.winner;
  artifacts = if e.cancel_requested then obj end else r.artifacts;
  failure_reason =
      if e.cancel_requested then str "execution canceled while running" else r.failure_reason;
  worker_id = none;
  lease_expires_at = none;
  updated_at = now;
}

-- the outbox row of an execution that has just ended, if it has a callback
unfoldable pub notify_execution : Option Execution → ℕ → List Delivery → List Delivery
unfolding notify_if
notify_execution none now rows = rows
notify_execution (some e) now rows =
    notify_if e.execution_id e.callback_url e.callback_token now rows

-- an UPDATE of `executions`
abbrev pub update_executions :
    (Execution → Bool) → (Execution → Execution) → JudgeStore → JudgeStore
update_executions p f s = record s { executions = update_where p f s.executions }

-- the row as it stands after an UPDATE that hit `count` rows is announced if it hit one
abbrev pub notify_updated : ℕ → String → ℕ → JudgeStore → List Delivery
notify_updated count i now s =
    if nat_eq count 1
    then notify_execution (find_execution i s) now s.callback_deliveries
    else s.callback_deliveries

-- the store after the UPDATE of `finish` and the outbox insertion
unfoldable pub finish_update : String → ExecutionResult → String → ℕ → ℕ → JudgeStore → JudgeStore
unfolding update_where rowcount first_where notify_execution
finish_update i r w now later s = record s {
  executions = update_where (holds_lease i w now) (finished r now) s.executions;
  callback_deliveries =
      notify_updated (rowcount (holds_lease i w now) s.executions) i later
        (update_executions (holds_lease i w now) (finished r now) s);
}

-- `if cursor.rowcount == 0: return None`, and the row that was written otherwise
unfoldable pub commit_finish :
    String → ExecutionResult → String → ℕ → ℕ → JudgeStore → Option ExecutionResult × JudgeStore
commit_finish i r w now later s =
    let s' = finish_update i r w now later s in
    (
      if nat_eq (rowcount (holds_lease i w now) s.executions) 0 then none else get_execution i s',
      s',
    )

-- the result with the score as its column gives it back; the UPDATE binds it whichever row it hits
unfoldable pub stored_result : Platform → ExecutionResult → Result ExecutionResult
stored_result lib r = elim (lib.real r.score) [
  | none ↦ err overflow
  | some score ↦ ok (record r { score = score })
]

unfoldable pub finish_found :
    Platform
    → String
    → ExecutionResult
    → String
    → ℕ
    → ℕ
    → JudgeStore
    → Option Execution
    → Result (Option ExecutionResult × JudgeStore)
unfolding validate_finish_result stored_result commit_finish
finish_found lib i r w now later s none = ok (none, s)
finish_found lib i r w now later s (some e) = do
  validate_finish_result lib i e.task_ref r
  stored ← stored_result lib r
  ok (commit_finish i stored w now later s)

-- `finish`, with the clock's readings at its begin and at the outbox insertion
unfoldable pub finish :
    Platform
    → String
    → ExecutionResult
    → String
    → ℕ
    → ℕ
    → JudgeStore
    → Result (Option ExecutionResult × JudgeStore)
finish lib i r w now later s = do
  require missing_worker_id (not (is_blank w))
  require not_terminal (is_terminal r.status)
  finish_found lib i r w now later s (find_execution i s)

abbrev pub can_renew : String → String → ℕ → Execution → Bool
can_renew i w now e = holds_lease i w now e && not e.cancel_requested

abbrev pub renewed : ℕ → ℕ → Execution → Execution
renewed until now e = record e { lease_expires_at = some until; updated_at = now }

-- `renew_lease`
unfoldable pub renew_lease : String → String → ℕ → ℕ → JudgeStore → Bool × JudgeStore
unfolding update_where rowcount
renew_lease i w seconds now s = (
  nat_eq (rowcount (can_renew i w now) s.executions) 1,
  update_executions (can_renew i w now) (renewed (lease_until now seconds) now) s,
)

abbrev pub cancellation : ℕ → Execution → Execution
cancellation now e = record e {
  cancel_requested = true;
  status = if is_queued e.status then Status.canceled else e.status;
  updated_at = now;
}

-- the store after the UPDATE of `cancel` and the outbox insertion; `e` is the row as it was read
unfoldable pub cancel_update : String → ℕ → ℕ → JudgeStore → Execution → JudgeStore
unfolding update_where notify_execution
cancel_update i now later s e = record s {
  executions = update_where (has_id i) (cancellation now) s.executions;
  callback_deliveries =
      if is_queued e.status
      then notify_execution (some e) later s.callback_deliveries
      else s.callback_deliveries;
}

cancel_found : String → ℕ → ℕ → JudgeStore → Option Execution → Option ExecutionResult × JudgeStore
unfolding cancel_update get_execution
cancel_found i now later s none = (none, s)
cancel_found i now later s (some e) =
    let s' = cancel_update i now later s e in (get_execution i s', s')

-- `cancel`
unfoldable pub cancel : String → ℕ → ℕ → JudgeStore → Option ExecutionResult × JudgeStore
unfolding first_where cancel_found
cancel i now later s = cancel_found i now later s (find_execution i s)

-- `is_cancel_requested`
unfoldable pub is_cancel_requested : String → JudgeStore → Bool
unfolding first_where
is_cancel_requested i s = elim (find_execution i s) [ none ↦ false | some e ↦ e.cancel_requested ]

-- ORDER BY created_at DESC
unfoldable pub newest_first : Execution → Execution → Bool
newest_first a b = leb b.created_at a.created_at

-- `max(1, min(1000, limit))`
abbrev pub bounded_limit : ℕ → ℕ
bounded_limit limit = max 1 (min 1000 limit)

abbrev pub has_status : String → Execution → Bool
has_status t e = status_text e.status == t

-- `list_executions`; an empty status asks for no filter
unfoldable pub list_executions : Option String → ℕ → JudgeStore → List ExecutionResult
unfolding newest_first select_where order_by result_of status_text
list_executions none limit s =
    map result_of (take (bounded_limit limit) (order_by newest_first s.executions))
list_executions (some t) limit s = map result_of (
    take (bounded_limit limit) (
      order_by newest_first
        (if t == "" then s.executions else select_where (has_status t) s.executions)))

pub record Stats : Type 0 where
  pub by_status : String → ℕ
  pub callbacks_pending : ℕ
  pub callbacks_in_flight : ℕ
  pub callbacks_failed : ℕ

is_open : JudgeStore → Delivery → Bool
unfolding for_terminal
is_open s c = is_undelivered c && for_terminal s c

-- `stats`; the dictionary of counts is a function that is 0 for a status without rows
unfoldable pub stats : JudgeStore → Stats
unfolding is_open rowcount status_text
stats s = record {
  by_status = λ t. rowcount (has_status t) s.executions;
  callbacks_pending = rowcount (is_open s) s.callback_deliveries;
  callbacks_in_flight =
      rowcount (λ c. is_open s c && elim c.lease_owner [ none ↦ false | some w ↦ true ])
        s.callback_deliveries;
  callbacks_failed = rowcount (λ c. is_open s c && ltb 0 c.attempts) s.callback_deliveries;
}
