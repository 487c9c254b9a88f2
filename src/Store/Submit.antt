-- ===== src/Store/Submit.antt =====
-- `submit`, `get_execution` and `_result` of src/brunost_judge/store.py.
use brunost_judge.Prelude.{
  ℕ, String, Bool, false, ◌&&◌, not, Option, none, some, [], ◌∷◌, ◌++◌, ◌==◌, if◌then◌else◌,
}
use brunost_judge.Prelude.Int.{ℤ}
use brunost_judge.Json.{
  int, Json, null, num, str, obj, Fields, end, field, get, get_or_null, put, or_else,
}
use brunost_judge.Text.{◌+++◌}
use brunost_judge.Platform.{Platform}
use brunost_judge.Contracts.{Status, ExecutionRequest, ExecutionResult, result_schema_version}
use brunost_judge.Sql.{first_where, exists_where}
use brunost_judge.Store.{
  Result, ok, err, unknown_task, idempotency_conflict, integrity_error, TaskRow, Execution,
  JudgeStore, has_id, find_execution,
}

opt_text : Option String → Json
opt_text none = null
opt_text (some s) = str s

opt_int : Option ℤ → Json
opt_int none = null
opt_int (some n) = num (int n)

-- the `payload` of `_request_fingerprint`
unfoldable pub fingerprint_payload : ExecutionRequest → Fields
unfolding opt_text opt_int
fingerprint_payload r = field "task_ref" (str r.task_ref) (
    field "submission_path" (str r.submission_path) (
      field "callback_url" (opt_text r.callback_url) (
        field "callback_token" (opt_text r.callback_token) (
          field "metadata" (obj r.metadata) (
            field "queue" (str r.queue) (
              field "resource_class" (str r.resource_class) (
                field "priority" (num (int r.priority))
                  (field "timeout_seconds" (opt_int r.timeout_seconds) end))))))))

-- `_request_fingerprint`
unfoldable pub request_fingerprint : Platform → ExecutionRequest → String
unfolding fingerprint_payload
request_fingerprint lib r = lib.sha256 (lib.dumps (fingerprint_payload r))

-- f"execution:{execution_id}:result"
abbrev pub event_id_of : String → String
event_id_of execution_id = "execution:" +++ execution_id +++ ":result"

put_timeout : Option ℤ → Fields → Fields
unfolding put
put_timeout none m = m
put_timeout (some n) m = put "timeout_seconds" (num (int n)) m

-- the metadata that `submit` stores: what the control plane knows overwrites what was sent
unfoldable pub submitted_metadata : String → Fields → ExecutionRequest → Fields
unfolding put get_or_null or_else put_timeout
submitted_metadata execution_id manifest r = put_timeout r.timeout_seconds (
    put "event_id" (str (event_id_of execution_id)) (
      put "runtime_image"
        (or_else (get_or_null "runtime_image" manifest) (get_or_null "runtime" manifest))
        (put "evaluator" (get_or_null "evaluator" manifest)
          (put "task_digest" (get_or_null "digest" manifest) r.metadata))))

-- the row that `submit` inserts
unfoldable pub submitted_row : String → ℕ → String → Fields → ExecutionRequest → Execution
unfolding submitted_metadata
submitted_row execution_id now fingerprint manifest r = record {
  execution_id = execution_id;
  idempotency_key = r.idempotency_key;
  task_ref = r.task_ref;
  submission_path = r.submission_path;
  callback_url = r.callback_url;
  callback_token = r.callback_token;
  request_fingerprint = fingerprint;
  metadata = submitted_metadata execution_id manifest r;
  status = Status.queued;
  score = null;
  metrics = obj end;
  scores = obj end;
  winner = null;
  artifacts = obj end;
  failure_reason = null;
  created_at = now;
  updated_at = now;
  cancel_requested = false;
  queue = r.queue;
  resource_class = r.resource_class;
  priority = r.priority;
  worker_id = none;
  lease_expires_at = none;
}

-- `metadata.get("event_id") or f"execution:{execution_id}:result"`
result_event_id : Execution → Json
unfolding get_or_null or_else
result_event_id e = or_else (get_or_null "event_id" e.metadata) (str (event_id_of e.execution_id))

-- `metadata.setdefault("event_id", event_id)`
set_default_event_id : Json → Fields → Fields
unfolding get put
set_default_event_id v m = elim (get "event_id" m) [ none ↦ put "event_id" v m | some w ↦ m ]

-- `_result`
unfoldable pub result_of : Execution → ExecutionResult
unfolding result_event_id set_default_event_id get_or_null
result_of e =
    let event_id = result_event_id e in
    let metadata = set_default_event_id event_id e.metadata in
    record {
      execution_id = e.execution_id;
      task_ref = e.task_ref;
      status = e.status;
      score = e.score;
      metrics = e.metrics;
      failure_reason = e.failure_reason;
      metadata = metadata;
      result_version = result_schema_version;
      judge_version = "local";
      queue = e.queue;
      resource_class = e.resource_class;
      priority = e.priority;
      task_digest = get_or_null "task_digest" metadata;
      evaluator = get_or_null "evaluator" metadata;
      runtime_image = get_or_null "runtime_image" metadata;
      seed = get_or_null "seed" metadata;
      event_id = event_id;
      scores = e.scores;
      winner = e.winner;
      artifacts = e.artifacts;
    }

-- `get_execution`
unfoldable pub get_execution : String → JudgeStore → Option ExecutionResult
unfolding result_of first_where
get_execution i s = elim (find_execution i s) [ none ↦ none | some e ↦ some (result_of e) ]

abbrev pub has_key : String → Execution → Bool
has_key k e = e.idempotency_key == k

abbrev pub has_task_ref : String → TaskRow → Bool
has_task_ref t r = r.task_ref == t

-- the branch on the row that has the idempotency key already
unfoldable pub replay_submission :
    String → Execution → JudgeStore → Result (Option ExecutionResult × JudgeStore)
unfolding result_of
replay_submission fingerprint existing s =
    if not (existing.request_fingerprint == "") && not (existing.request_fingerprint == fingerprint)
    then err idempotency_conflict
    else ok (some (result_of existing), s)

-- INSERT INTO executions, whose primary key must be new
unfoldable pub insert_execution : Execution → JudgeStore → Result JudgeStore
unfolding exists_where
insert_execution e s =
    if exists_where (has_id e.execution_id) s.executions
    then err integrity_error
    else ok (record s { executions = s.executions ++ e ∷ [] })

-- the branch on a new idempotency key
unfoldable pub new_submission :
    Platform
    → String
    → ℕ
    → ExecutionRequest
    → TaskRow
    → JudgeStore
    → Result (Option ExecutionResult × JudgeStore)
unfolding insert_execution get_execution submitted_row request_fingerprint
new_submission lib execution_id now r task s =
    elim (insert_execution
      (submitted_row execution_id now (request_fingerprint lib r) task.manifest r) s) [
        | err e ↦ err e
        | ok s' ↦ ok (get_execution execution_id s', s')
      ]

-- `submit`, with the new UUID and the clock's reading
unfoldable pub submit :
    Platform
    → String
    → ℕ
    → ExecutionRequest
    → JudgeStore
    → Result (Option ExecutionResult × JudgeStore)
submit lib execution_id now r s = elim (first_where (has_task_ref r.task_ref) s.tasks) [
  | none ↦ err unknown_task
  | some task ↦ elim (first_where (has_key r.idempotency_key) s.executions) [
    | some existing ↦ replay_submission (request_fingerprint lib r) existing s
    | none ↦ new_submission lib execution_id now r task s
  ]
]
