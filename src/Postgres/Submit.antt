-- ===== src/Postgres/Submit.antt =====
-- `submit` of the PostgreSQL store, which inserts first and reads the row of the key on a conflict.
use brunost_judge.Prelude.{ℕ, String, Option, none, some, [], ◌∷◌, ◌++◌, if◌then◌else◌}
use brunost_judge.Platform.{Platform}
use brunost_judge.Contracts.{ExecutionRequest, ExecutionResult}
use brunost_judge.Sql.{first_where, exists_where}
use brunost_judge.Store.{
  Result, ok, err, ◌>>=◌, unknown_task, integrity_error, lost_insert, data_error, Execution,
  JudgeStore, has_id,
}
use brunost_judge.Postgres.Columns.{Columns}
use brunost_judge.Store.Submit.{
  result_of, has_key, has_task_ref, replay_submission, request_fingerprint, submitted_row,
}

-- the row that the INSERT gives back, if the columns take the values
unfoldable pub column_row : Columns → Execution → Result Execution
column_row cols e = elim (cols.execution e) [ none ↦ err data_error | some stored ↦ ok stored ]

-- INSERT ... ON CONFLICT(idempotency_key) DO NOTHING RETURNING *
unfoldable pub insert_unless_key : Execution → JudgeStore → Result (Option Execution × JudgeStore)
unfolding exists_where
insert_unless_key e s =
    if exists_where (has_key e.idempotency_key) s.executions
    then ok (none, s)
    else if exists_where (has_id e.execution_id) s.executions
    then err integrity_error
    else ok (some e, record s { executions = s.executions ++ e ∷ [] })

-- the branch on a row of that key
unfoldable pub read_existing :
    String → Option Execution → JudgeStore → Result (Option ExecutionResult × JudgeStore)
unfolding replay_submission
read_existing fingerprint none s = err lost_insert
read_existing fingerprint (some existing) s = replay_submission fingerprint existing s

-- the branch on the row that the INSERT returns
unfoldable pub after_insert :
    String → String → Option Execution × JudgeStore → Result (Option ExecutionResult × JudgeStore)
unfolding result_of first_where read_existing
after_insert key fingerprint (some row, s) = ok (some (result_of row), s)
after_insert key fingerprint (none, s) =
    read_existing fingerprint (first_where (has_key key) s.executions) s

-- `submit`
unfoldable pub submit :
    Columns
    → Platform
    → String
    → ℕ
    → ExecutionRequest
    → JudgeStore
    → Result (Option ExecutionResult × JudgeStore)
unfolding first_where request_fingerprint submitted_row column_row insert_unless_key after_insert
submit cols lib execution_id now r s = elim (first_where (has_task_ref r.task_ref) s.tasks) [
  | none ↦ err unknown_task
  | some task ↦
      column_row cols (submitted_row execution_id now (request_fingerprint lib r) task.manifest r)
      >>= (λ row. insert_unless_key row s)
      >>= after_insert r.idempotency_key (request_fingerprint lib r)
]
