-- ===== src/Store.antt =====
-- The tables of src/brunost_judge/store.py and the store that holds them. A JSON column holds the
-- value that `json.loads` returns. A time is a number of microseconds: the code compares the ISO
-- texts of UTC times, whose order is the order of the times.
pub mod Submit
pub mod Registry
pub mod Credentials
pub mod Claim
pub mod Finish
pub mod Deliveries
pub mod Steps
pub mod Keys
pub mod Lifecycle
pub mod Rows
pub mod Idempotency
pub mod Outbox
mod Tests
use brunost_judge.Prelude.{
  ℕ, ◌+◌, ◌*◌, String, Bool, true, false, Option, none, some, List, [], max, ◌==◌, if◌then◌else◌,
}
use brunost_judge.Prelude.Int.{ℤ}
use brunost_judge.Json.{Json, Fields}
use brunost_judge.Contracts.{Status}
use brunost_judge.Sql.{first_where, update_where, exists_where}

-- The exceptions that a method of the store raises.
pub data Error : Type 0 where
  unknown_task immutable_task immutable_definition idempotency_conflict : Error
  missing_worker_id not_terminal wrong_execution wrong_task : Error
  invalid_result : List String → Error
  type_error integrity_error lost_insert overflow data_error : Error

-- A method that raises leaves its transaction, so the store is as it was before.
pub data Result {ℓ} (A : Type ℓ) : Type ℓ where
  err : Error → Result A
  ok : A → Result A

infixl 5 ◌>>=◌ ◌>>◌
-- the rest of a method, which an exception skips
abbrev pub ◌>>=◌ {ℓ κ} : {A : Type ℓ} {B : Type κ} → Result A → (A → Result B) → Result B
err raised >>= rest = err raised
ok value >>= rest = rest value

abbrev pub ◌>>◌ {ℓ} : {B : Type ℓ} → Result (Unit {0}) → Result B → Result B
err raised >> rest = err raised
ok done >> rest = rest

-- `if not test: raise e`
abbrev pub require : Error → Bool → Result (Unit {0})
require e test = if test then ok tt else err e

pub record TaskRow : Type 0 where
  pub task_ref : String
  pub path : String
  pub kind : String
  pub manifest : Fields
  pub created_at : ℕ

pub record Execution : Type 0 where
  pub execution_id : String
  pub idempotency_key : String
  pub task_ref : String
  pub submission_path : String
  pub callback_url : Option String
  pub callback_token : Option String
  pub request_fingerprint : String
  pub metadata : Fields
  pub status : Status
  pub score : Json
  pub metrics : Json
  pub scores : Json
  pub winner : Json
  pub artifacts : Json
  pub failure_reason : Json
  pub created_at : ℕ
  pub updated_at : ℕ
  pub cancel_requested : Bool
  pub queue : String
  pub resource_class : String
  pub priority : ℤ
  pub worker_id : Option String
  pub lease_expires_at : Option ℕ

-- a row of `callback_deliveries`
pub record Delivery : Type 0 where
  pub execution_id : String
  pub callback_url : String
  pub callback_token : Option String
  pub attempts : ℕ
  pub next_attempt_at : ℕ
  pub delivered_at : Option ℕ
  pub last_error : Option String
  pub lease_owner : Option String
  pub lease_expires_at : Option ℕ

pub record DefinitionRow : Type 0 where
  pub definition_type : String
  pub definition_id : String
  pub payload : Fields
  pub created_at : ℕ
  pub updated_at : ℕ

pub record WorkerRow : Type 0 where
  pub worker_id : String
  pub capabilities : List String
  pub queues : List String
  pub resource_classes : List String
  pub region : Option String
  pub status : String
  pub draining : Bool
  pub metadata : Fields
  pub last_seen : ℕ

pub record EnrollmentRow : Type 0 where
  pub token_id : String
  pub token_hash : String
  pub payload : Fields
  pub expires_at : String
  pub used_at : Option ℕ
  pub created_at : ℕ

pub record WorkerCredential : Type 0 where
  pub worker_id : String
  pub token_hash : String
  pub created_at : ℕ
  pub revoked_at : Option ℕ

pub record ServiceCredential : Type 0 where
  pub credential_id : String
  pub name : String
  pub token_hash : String
  pub scopes : List String
  pub expires_at : Option String
  pub created_at : ℕ
  pub revoked_at : Option ℕ

pub record AuditEvent : Type 0 where
  pub event_id : String
  pub actor : String
  pub action : String
  pub resource : String
  pub success : Bool
  pub metadata : Fields
  pub created_at : ℕ

pub record JudgeStore : Type 0 where
  pub tasks : List TaskRow
  pub executions : List Execution
  pub callback_deliveries : List Delivery
  pub definitions : List DefinitionRow
  pub workers : List WorkerRow
  pub enrollment_tokens : List EnrollmentRow
  pub worker_credentials : List WorkerCredential
  pub service_credentials : List ServiceCredential
  pub audit_events : List AuditEvent

-- the tables of a new database
abbrev pub empty_store : JudgeStore
empty_store = record {
  tasks = [];
  executions = [];
  callback_deliveries = [];
  definitions = [];
  workers = [];
  enrollment_tokens = [];
  worker_credentials = [];
  service_credentials = [];
  audit_events = [];
}

-- WHERE execution_id = ?
abbrev pub has_id : String → Execution → Bool
has_id i e = e.execution_id == i

abbrev pub is_for : String → Delivery → Bool
is_for i c = c.execution_id == i

abbrev pub find_execution : String → JudgeStore → Option Execution
find_execution i s = first_where (has_id i) s.executions

-- status = 'queued', status = 'running'
abbrev pub is_queued : Status → Bool
is_queued Status.queued = true
is_queued _ = false

abbrev pub is_running : Status → Bool
is_running Status.running = true
is_running _ = false

-- Python's truth value of an optional text
abbrev pub truthy_text : Option String → Bool
truthy_text none = false
truthy_text (some s) = if s == "" then false else true

-- `now + timedelta(seconds=max(1, lease_seconds))`
abbrev pub lease_until : ℕ → ℕ → ℕ
lease_until now seconds = now + max 1 seconds * 1000000

-- `worker_id = ?` on a column that may be NULL
abbrev pub owned_by : String → Option String → Bool
owned_by w none = false
owned_by w (some v) = v == w
