-- ===== src/Postgres/Refinement/Submit.antt =====
-- `submit` and `register_task` of the two stores agree.
use brunost_judge.Prelude.{
  ℕ, String, ◌≡◌, refl, inl, inr, false, Bool-cases, Option-cases, none, some, List, [], ◌∷◌, ◌++◌,
  arith, eq_refl, All,
}
use brunost_judge.Postgres.Columns.{Columns}
use brunost_judge.Platform.{Platform}
use brunost_judge.Contracts.{ExecutionRequest}
use brunost_judge.Sql.{first_where, exists_where}
use brunost_judge.Sql.Update.{exists-first, first-append, All-first}
use brunost_judge.Store.{ok, ◌>>=◌, TaskRow, Execution, JudgeStore, has_id, find_execution}
use brunost_judge.Store.Submit
use brunost_judge.Store.Submit.{
  result_of, get_execution, has_key, has_task_ref, replay_submission, request_fingerprint,
  submitted_row, insert_execution, new_submission,
}
use brunost_judge.Postgres.Submit as Pg
use brunost_judge.Postgres.Submit.{column_row, insert_unless_key, after_insert, read_existing}

get_of_found :
    (i : String) (e : Execution) (s : JudgeStore)
    → find_execution i s ≡ some e
    → get_execution i s ≡ some (result_of e)
unfolding get_execution
get_of_found i e s found = rw (found, get_execution)

first-appended :
    (e : Execution) (rows : List Execution)
    → exists_where (has_id e.execution_id) rows ≡ false
    → first_where (has_id e.execution_id) (rows ++ e ∷ []) ≡ some e
unfolding first_where
first-appended e rows new = ground (
  arith,
  first-append (has_id e.execution_id) rows (e ∷ []),
  exists-first (has_id e.execution_id) rows,
  eq_refl e.execution_id,
)

-- a row that was just appended is found under its identifier
appended :
    (e : Execution) (s : JudgeStore)
    → exists_where (has_id e.execution_id) s.executions ≡ false
    → get_execution e.execution_id (record s { executions = s.executions ++ e ∷ [] })
      ≡ some (result_of e)
appended e s new =
    get_of_found e.execution_id e (record s { executions = s.executions ++ e ∷ [] })
      (first-appended e s.executions new)

module _ (cols : Columns) (lib : Platform) (i : String) (now : ℕ) (r : ExecutionRequest)
    (s : JudgeStore) (t : TaskRow) where
  abbrev row : Execution
  row = submitted_row i now (request_fingerprint lib r) t.manifest r

  insert_known :
      (e : Execution)
      → first_where (has_key r.idempotency_key) s.executions ≡ some e
      → (insert_unless_key row s >>= after_insert r.idempotency_key (request_fingerprint lib r))
        ≡ replay_submission (request_fingerprint lib r) e s
  unfolding insert_unless_key after_insert read_existing submitted_row
  insert_known e known = ground (arith, exists-first (has_key r.idempotency_key) s.executions)

  insert_new :
      first_where (has_key r.idempotency_key) s.executions ≡ none
      → (insert_unless_key row s >>= after_insert r.idempotency_key (request_fingerprint lib r))
        ≡ new_submission lib i now r t s
  unfolding insert_unless_key after_insert new_submission insert_execution submitted_row
  insert_new fresh = elim (Bool-cases (exists_where (has_id i) s.executions)) [
    | inl taken ↦ ground (arith, exists-first (has_key r.idempotency_key) s.executions)
    | inr free ↦
        ground (arith, exists-first (has_key r.idempotency_key) s.executions, appended row s free)
  ]

-- the row that a task's submission inserts is given back as it is
abbrev pub KeepsRow : Columns → Platform → String → ℕ → ExecutionRequest → TaskRow → Type 0
KeepsRow cols lib i now r t =
    let row = submitted_row i now (request_fingerprint lib r) t.manifest r in
    cols.execution row ≡ some row

column_kept :
    (cols : Columns) (e : Execution) → cols.execution e ≡ some e → column_row cols e ≡ ok e
unfolding column_row
column_kept cols e h = rw (column_row, h) refl

-- The two stores answer a submission alike, and leave the same tables.
pub submit-eq :
    (cols : Columns) (lib : Platform) (i : String) (now : ℕ) (r : ExecutionRequest) (s : JudgeStore)
    → All (KeepsRow cols lib i now r) s.tasks
    → Pg.submit cols lib i now r s ≡ Submit.submit lib i now r s
unfolding Pg.submit Submit.submit
submit-eq cols lib i now r s keeps =
    elim (Option-cases (first_where (has_task_ref r.task_ref) s.tasks)) [
      | inl missing ↦ rw (missing, Pg.submit, Submit.submit) refl
      | inr (t, known) ↦
          let kept =
            column_kept cols (submitted_row i now (request_fingerprint lib r) t.manifest r) (
              All-first (KeepsRow cols lib i now r) (has_task_ref r.task_ref) s.tasks t keeps
                known) in
          elim (Option-cases (first_where (has_key r.idempotency_key) s.executions)) [
            | inl fresh ↦
                rw (known, fresh, Pg.submit, Submit.submit, kept)
                  (insert_new cols lib i now r s t fresh)
            | inr (e, old) ↦
                rw (known, old, Pg.submit, Submit.submit, kept)
                  (insert_known cols lib i now r s t e old)
          ]
    ]
