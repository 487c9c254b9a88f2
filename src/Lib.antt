-- ===== src/Lib.antt =====
-- Brunost Judge: the control plane of an execution service for contests. Clients submit executions
-- of registered tasks, workers claim them under a lease and publish results, and an outbox delivers
-- callbacks. This library models the durable store and the checks of results at its boundary.
--
-- - Contracts: src/brunost_judge/contracts.py, the records that the parts exchange.
-- - Conformance: src/brunost_judge/conformance.py, the checks of a result payload. `none` is the
--   TypeError of a status without a hash.
-- - Json, Text: the JSON values and the texts that those checks read.
-- - Platform: what the code takes from the standard library: json.dumps, SHA-256, fromisoformat
--   and the REAL column of sqlite3 are parameters of the model.
-- - Sql: SELECT, UPDATE with its row count, ORDER BY and keys, over tables that are lists of rows.
-- - Store: the tables of src/brunost_judge/store.py. Store/Submit models `submit`, `get_execution`
--   and `_result`; Store/Claim `claim_next`; Store/Finish `finish`, `renew_lease`, `cancel` and the
--   listings; Store/Deliveries the callback outbox; Store/Registry the tasks, definitions and
--   workers; Store/Credentials the enrollment tokens, credentials and audit log. A method is a
--   function from a store to a result and a store; one that raises leaves its transaction, so the
--   store stays as it was. The lock and the transactions of the code make each method one step,
--   with the read of the row that it returns. Store/Steps has the calls as a data type and
--   histories of calls as lists.
-- - Postgres: src/brunost_judge/postgres_store.py, the same methods in the other SQL dialect, over the
--   tables of Store: an INSERT that skips a known key, an UPDATE that returns its rows, a claim that
--   tests the capabilities in the query. What the columns do with the values that are written is a
--   parameter, Postgres/Columns. Postgres/Capable says on which tables both stores read the
--   required capabilities alike, and Postgres/Refinement compares the methods one by one.
-- - Scheduler: src/brunost_judge/scheduler.py, the choice of a worker in memory.
-- - Protocol: src/grader/agent_protocol.py, the checks and frames of agent messages. The JSON
--   library is a parameter, and the byte strings are lists of numbers.
-- - Auth: src/brunost_judge/auth.py, the limiter of requests with a rolling window for each key.
-- - Agents: src/grader/agent_runtime.py. Agents/Reader models the loop that reads a line from an agent,
--   Agents/Process a request, Agents/Runtime the turns of a match. What the clock, the pipes and
--   `select` do is a list of rounds, so the loop is recursion on that list, and runs out of rounds
--   only if the world does.
-- - Quiz: src/grader/quiz.py. Quiz/Question models the checks of one question of the answer key,
--   Quiz/Grade the loop over the questions, `_is_correct` and `run_quiz`. Any exception that the answer
--   key raises is `none`, since all of them fail the run. The normalization of texts and the
--   arithmetic of floats are parameters.
-- - Classic: src/grader/classic.py, the judge of deterministic programs. Classic/Settings models
--   `_config`, on the entries of judge.yaml; Classic/Process `_run_process`, where the sizes and times that the loop sees are a list of looks; Classic/Checker
--   `_test_cases` and `_check_output`, with `split` of bytes in Classic/Words; Classic/Judge `_compile`,
--   `_reference_answers` and `run_classic`. Files are their contents, a failed evaluation is `none`,
--   and a score is a fraction. A checker and Python's `str` and `upper` are parameters.
-- - Security: src/brunost_judge/security.py, the signatures of callbacks; HMAC-SHA256, UTF-8, the
--   integers as texts and compare_digest are parameters.
--
-- A time is a number of microseconds: the code compares ISO texts of UTC times. New identifiers and
-- the readings of the clock are arguments of the calls. The loop of `claim_next` over pages of 100
-- rows runs on fuel, one round more than there are candidates, which is enough since each round but
-- the last reads a row.
--
-- Not modelled: the upgrades of old database files, the tokens and audit events of the PostgreSQL
-- store, the HTTP server, the worker's containers, launching and stopping processes, interactive
-- tasks, task packages on disk, the command line and the client libraries.
pub mod Prelude
pub mod Json
pub mod Text
pub mod Contracts
pub mod Platform
pub mod Conformance
pub mod Sql
pub mod Store
pub mod Scheduler
pub mod Protocol
pub mod Auth
pub mod Agents
pub mod Quiz
pub mod Classic
pub mod Security
pub mod Postgres
