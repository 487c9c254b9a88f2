-- ===== src/Postgres/Tests.antt =====
-- A concrete history of calls on the two stores.
use brunost_judge.Prelude.{
  ◌≡◌, refl, some, none, List, [], ◌∷◌, Bool, true, leb, ◌&&◌, if◌then◌else◌,
}
use brunost_judge.Prelude.Int.{pos, pos_part, neg_part}
use brunost_judge.Json.{
  int, num, str, arr, nil, cons, obj, Fields, end, field, null, get_or_null, json_eq,
}
use brunost_judge.Platform.{Platform}
use brunost_judge.Contracts.{Status, TaskRecord, ExecutionRequest, ExecutionResult}
use brunost_judge.Store.{TaskRow, Execution, JudgeStore, empty_store}
use brunost_judge.Store.Submit.{submitted_row}
use brunost_judge.Store.Finish.{stored_result}
use brunost_judge.Postgres.Columns.{Columns}
use brunost_judge.Postgres.Refinement.Submit.{KeepsRow}
use brunost_judge.Postgres.Refinement.Calls.{KeepsOutcome}
use brunost_judge.Store.Registry as SqliteRegistry
use brunost_judge.Store.Steps as Sqlite
use brunost_judge.Store.Steps.{Call}
use brunost_judge.Postgres.Registry
use brunost_judge.Postgres.Steps
use brunost_judge.Postgres.Capable.{IsCapable, is_text_list}
use brunost_judge.Postgres.Refinement.Calls.{run-eq}
use brunost_judge.Postgres.Refinement.Registry.{register_task-eq}

abbrev lib : Platform
lib = record {
  dumps = λ fs. "{}";
  sha256 = λ text. text;
  parse_time = λ text. none;
  real = λ score. some score;
}

abbrev needs_gpu : Fields
needs_gpu = field "required_capabilities" (arr (cons (str "gpu") nil)) end

abbrev gpu_task : TaskRecord
gpu_task = record { task_ref = "train"; path = "tasks/train"; kind = "model"; manifest = needs_gpu }

abbrev first_task : TaskRow
first_task = record {
  task_ref = "train";
  path = "tasks/train";
  kind = "model";
  manifest = needs_gpu;
  created_at = 1;
}

abbrev start : JudgeStore
start = record empty_store { tasks = first_task ∷ [] }

abbrev request : ExecutionRequest
request = record {
  task_ref = "train";
  submission_path = "main.py";
  idempotency_key = "k";
  callback_url = some "https://contest/hook";
  callback_token = none;
  metadata = end;
  queue = "default";
  resource_class = "gpu";
  priority = pos 3;
  timeout_seconds = some (pos 60);
}

abbrev result : ExecutionResult
result = record {
  execution_id = "e";
  task_ref = "train";
  status = Status.completed;
  score = num (int (pos 1));
  metrics = obj end;
  failure_reason = null;
  metadata = end;
  result_version = 1;
  judge_version = "local";
  queue = "default";
  resource_class = "gpu";
  priority = pos 3;
  task_digest = null;
  evaluator = null;
  runtime_image = null;
  seed = null;
  event_id = null;
  scores = obj end;
  winner = null;
  artifacts = obj end;
}

abbrev calls : List Call
calls =
    Call.submit "e" 2 request
    ∷ Call.claim_next "w" [] [] ("gpu" ∷ "cuda" ∷ []) 60 3
    ∷ Call.cancel "e" 4 5
    ∷ Call.finish "e" result "w" 6 7
    ∷ Call.claim_callback "e" "w" 60 8
    ∷ Call.mark_callback_failed "e" "timeout" none 9
    ∷ []

-- priorities of 32 bits, and everything else as it is
abbrev in_integer : Execution → Bool
in_integer e = leb (pos_part e.priority) 2147483647 && leb (neg_part e.priority) 2147483648

abbrev columns : Columns
columns = record {
  execution = λ e. if in_integer e then some e else none;
  task = λ t. some t;
  definition = λ d. some d;
  worker = λ w. some w;
  outcome = λ r. some r;
  sends = λ c. true;
}

kept_result : KeepsOutcome columns lib result
unfolding stored_result
kept_result = record { stored = result; sqlite = refl; postgres = refl }

kept_request : KeepsRow columns lib "e" 2 request first_task
unfolding submitted_row
kept_request = refl

start-IsCapable : IsCapable start
unfolding is_text_list get_or_null
start-IsCapable = record { tasks = (refl, tt); executions = tt }

run-eq_example : Steps.run columns lib calls start ≡ Sqlite.run lib calls start
run-eq_example = run-eq columns lib calls start start-IsCapable (
  (refl, (unfold is_text_list get_or_null in refl), (kept_request, tt)),
  (
    (refl, tt, tt),
    ((refl, tt, tt), ((refl, tt, kept_result), ((refl, tt, tt), ((refl, tt, tt), tt)))),
  ),
)

register_task-eq_example :
    Registry.register_task columns 9 gpu_task start ≡ SqliteRegistry.register_task 9 gpu_task start
register_task-eq_example = register_task-eq columns 9 gpu_task start refl (unfold json_eq in refl)
