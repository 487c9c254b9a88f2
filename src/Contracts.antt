-- ===== src/Contracts.antt =====
-- src/brunost_judge/contracts.py: the requests, results and records that the parts of the judge
-- exchange.
use brunost_judge.Prelude.{ℕ, String, Bool, true, false, Option, none, some, List, [], ◌∷◌}
use brunost_judge.Prelude.Int.{ℤ, pos}
use brunost_judge.Json.{int, Json, num, str, arr, obj, Items, nil, cons, Fields, end, field, put}

-- The texts of a status. `other` is any further text, which the store never writes.
pub data Status : Type 0 where
  queued running completed failed canceled : Status
  other : String → Status

unfoldable pub status_text : Status → String
status_text queued = "queued"
status_text running = "running"
status_text completed = "completed"
status_text failed = "failed"
status_text canceled = "canceled"
status_text (other s) = s

-- `status in TERMINAL_STATUSES`
abbrev pub is_terminal : Status → Bool
is_terminal completed = true
is_terminal failed = true
is_terminal canceled = true
is_terminal _ = false

abbrev pub result_schema_version : ℕ
result_schema_version = 1

pub record TaskRecord : Type 0 where
  pub task_ref : String
  pub path : String
  pub kind : String
  pub manifest : Fields

pub record WorkerRecord : Type 0 where
  pub worker_id : String
  pub capabilities : List String
  pub queues : List String
  pub resource_classes : List String
  pub region : Option String
  pub status : String
  pub draining : Bool
  pub metadata : Fields
  pub last_seen : Option ℕ

pub record ExecutionRequest : Type 0 where
  pub task_ref : String
  pub submission_path : String
  pub idempotency_key : String
  pub callback_url : Option String
  pub callback_token : Option String
  pub metadata : Fields
  pub queue : String
  pub resource_class : String
  pub priority : ℤ
  pub timeout_seconds : Option ℤ

-- The values that a worker reports are not checked by their annotations, so they are JSON values.
pub record ExecutionResult : Type 0 where
  pub execution_id : String
  pub task_ref : String
  pub status : Status
  pub score : Json
  pub metrics : Json
  pub failure_reason : Json
  pub metadata : Fields
  pub result_version : ℕ
  pub judge_version : String
  pub queue : String
  pub resource_class : String
  pub priority : ℤ
  pub task_digest : Json
  pub evaluator : Json
  pub runtime_image : Json
  pub seed : Json
  pub event_id : Json
  pub scores : Json
  pub winner : Json
  pub artifacts : Json

-- `ExecutionResult.as_dict`
unfoldable pub as_dict : ExecutionResult → Fields
unfolding status_text
as_dict r = field "execution_id" (str r.execution_id) (
    field "task_ref" (str r.task_ref) (
      field "status" (str (status_text r.status)) (
        field "score" r.score (
          field "metrics" r.metrics (
            field "failure_reason" r.failure_reason (
              field "metadata" (obj r.metadata) (
                field "result_version" (num (int (pos r.result_version))) (
                  field "judge_version" (str r.judge_version) (
                    field "queue" (str r.queue) (
                      field "resource_class" (str r.resource_class) (
                        field "priority" (num (int r.priority)) (
                          field "task_digest" r.task_digest (
                            field "evaluator" r.evaluator (
                              field "runtime_image" r.runtime_image (
                                field "seed" r.seed (
                                  field "event_id" r.event_id (
                                    field "scores" r.scores (
                                      field "winner" r.winner (
                                        field "artifacts" r.artifacts (
                                          field "evaluation_id" (str r.execution_id)
                                            end))))))))))))))))))))

pub record EvaluationRequest : Type 0 where
  pub task_ref : String
  pub submission_path : String
  pub idempotency_key : String
  pub evaluation_kind : String
  pub agent_refs : List String
  pub game_ref : Option String
  pub seed : Option ℤ
  pub callback_url : Option String
  pub callback_token : Option String
  pub metadata : Fields
  pub queue : String
  pub resource_class : String
  pub priority : ℤ
  pub timeout_seconds : Option ℤ

unfoldable pub text_items : List String → Items
text_items [] = nil
text_items (x ∷ xs) = cons (str x) (text_items xs)

-- the conditional assignments to `metadata`
put_agents : List String → Fields → Fields
unfolding text_items put
put_agents [] m = m
put_agents (x ∷ xs) m = put "agent_refs" (arr (text_items (x ∷ xs))) m

put_game : Option String → Fields → Fields
unfolding put
put_game none m = m
put_game (some String.[]) m = m
put_game (some (String.◌∷◌ c g)) m = put "game_ref" (str (String.◌∷◌ c g)) m

put_seed : Option ℤ → Fields → Fields
unfolding put
put_seed none m = m
put_seed (some n) m = put "seed" (num (int n)) m

-- `EvaluationRequest.to_execution_request`
unfoldable pub to_execution_request : EvaluationRequest → ExecutionRequest
unfolding put_agents put_game put_seed put
to_execution_request r = record {
  task_ref = r.task_ref;
  submission_path = r.submission_path;
  idempotency_key = r.idempotency_key;
  callback_url = r.callback_url;
  callback_token = r.callback_token;
  metadata = put_seed r.seed (
      put_game r.game_ref
        (put_agents r.agent_refs (put "evaluation_kind" (str r.evaluation_kind) r.metadata)));
  queue = r.queue;
  resource_class = r.resource_class;
  priority = r.priority;
  timeout_seconds = r.timeout_seconds;
}
