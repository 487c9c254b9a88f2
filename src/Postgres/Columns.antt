-- ===== src/Postgres/Columns.antt =====
-- What PostgreSQL and its driver do with the values that src/brunost_judge/postgres_store.py writes.
-- A JSONB column refuses NaN, an infinity and a NUL character, and gives back a large float as an
-- integer; the order of its keys, which Python's `==` does not see, is left as it is. A TEXT column refuses a NUL character, an INTEGER column a
-- number beyond 32 bits; a DOUBLE PRECISION column gives back a float.
use brunost_judge.Prelude.{Bool, Option}
use brunost_judge.Contracts.{ExecutionResult}
use brunost_judge.Store.{TaskRow, Execution, DefinitionRow, WorkerRow}
use brunost_judge.Store.Steps.{Call}

-- a row as its table gives it back, or `none` if the database raises
pub record Columns : Type 0 where
  pub execution : Execution → Option Execution
  pub task : TaskRow → Option TaskRow
  pub definition : DefinitionRow → Option DefinitionRow
  pub worker : WorkerRow → Option WorkerRow
  -- a result as the UPDATE of `finish` stores it
  pub outcome : ExecutionResult → Option ExecutionResult
  -- whether the texts and numbers of a call can be sent as parameters of its statements
  pub sends : Call → Bool
