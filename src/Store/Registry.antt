-- ===== src/Store/Registry.antt =====
-- The registries of src/brunost_judge/store.py: tasks and definitions, which are immutable, and
-- workers, which are replaced when they register again.
pub mod Tasks
use brunost_judge.Prelude.{
  ℕ, String, Bool, ◌&&◌, Option, none, some, List, [], ◌∷◌, ◌++◌, map, contains, ◌==◌,
  if◌then◌else◌,
}
use brunost_judge.Json.{Json, str, obj, Fields, end, field, put, json_eq}
use brunost_judge.Contracts.{TaskRecord, WorkerRecord}
use brunost_judge.Sql.{select_where, first_where, update_where, exists_where, order_by}
use brunost_judge.Sql.Order.{text_leb}
use brunost_judge.Store.{
  Result, ok, err, immutable_task, immutable_definition, TaskRow, DefinitionRow, WorkerRow,
  JudgeStore,
}
use brunost_judge.Store.Submit.{has_task_ref}

-- `TaskRecord(row["task_ref"], row["path"], row["kind"], json.loads(row["manifest_json"]))`
unfoldable pub task_of : TaskRow → TaskRecord
task_of t = record { task_ref = t.task_ref; path = t.path; kind = t.kind; manifest = t.manifest }

-- the comparison of the stored columns with the task
unfoldable pub same_task : TaskRow → TaskRecord → Bool
unfolding json_eq
same_task row t =
    row.path == t.path && row.kind == t.kind && json_eq (obj row.manifest) (obj t.manifest)

-- the row of the INSERT
unfoldable pub task_row : ℕ → TaskRecord → TaskRow
task_row now t = record {
  task_ref = t.task_ref;
  path = t.path;
  kind = t.kind;
  manifest = t.manifest;
  created_at = now;
}

unfoldable pub insert_task : ℕ → TaskRecord → JudgeStore → JudgeStore
unfolding task_row
insert_task now t s = record s { tasks = s.tasks ++ task_row now t ∷ [] }

-- `register_task`
unfoldable pub register_task : ℕ → TaskRecord → JudgeStore → Result (TaskRecord × JudgeStore)
unfolding first_where same_task insert_task
register_task now t s = elim (first_where (has_task_ref t.task_ref) s.tasks) [
  | none ↦ ok (t, insert_task now t s)
  | some row ↦ if same_task row t then ok (t, s) else err immutable_task
]

-- `get_task`
unfoldable pub get_task : String → JudgeStore → Option TaskRecord
unfolding first_where task_of
get_task r s = elim (first_where (has_task_ref r) s.tasks) [
  | none ↦ none
  | some row ↦ some (task_of row)
]

-- `list_tasks`
unfoldable pub list_tasks : JudgeStore → List TaskRecord
unfolding order_by text_leb task_of
list_tasks s = map task_of (order_by (λ a b. text_leb a.task_ref b.task_ref) s.tasks)

abbrev pub is_definition : String → String → DefinitionRow → Bool
is_definition kind i d = d.definition_type == kind && d.definition_id == i

-- the entries of a display `{**target, **source}`
unfoldable pub put_all : Fields → Fields → Fields
unfolding put
put_all end target = target
put_all (field k v source) target = put_all source (put k v target)

-- `{"definition_type": ..., "definition_id": ..., **payload}`
unfoldable pub definition_fields : String → String → Fields → Fields
unfolding put_all
definition_fields kind i payload =
    put_all payload (field "definition_type" (str kind) (field "definition_id" (str i) end))

unfoldable pub insert_definition : ℕ → String → String → Fields → JudgeStore → JudgeStore
insert_definition now kind i payload s = record s {
  definitions =
      s.definitions
      ++ record {
        definition_type = kind;
        definition_id = i;
        payload = payload;
        created_at = now;
        updated_at = now;
      }
        ∷ [];
}

-- `register_definition`
unfoldable pub register_definition :
    ℕ → String → String → Fields → JudgeStore → Result (Fields × JudgeStore)
unfolding first_where json_eq definition_fields insert_definition
register_definition now kind i payload s = elim (first_where (is_definition kind i) s.definitions) [
  | none ↦ ok (definition_fields kind i payload, insert_definition now kind i payload s)
  | some d ↦
      if json_eq (obj d.payload) (obj payload)
      then ok (definition_fields kind i payload, s)
      else err immutable_definition
]

-- `get_definition`
unfoldable pub get_definition : String → String → JudgeStore → Option Fields
unfolding first_where definition_fields
get_definition kind i s = elim (first_where (is_definition kind i) s.definitions) [
  | none ↦ none
  | some d ↦ some (definition_fields d.definition_type d.definition_id d.payload)
]

-- `list_definitions`
unfoldable pub list_definitions : String → JudgeStore → List Fields
unfolding select_where order_by text_leb definition_fields
list_definitions kind s =
    map (λ d. definition_fields d.definition_type d.definition_id d.payload)
      (order_by (λ a b. text_leb a.definition_id b.definition_id)
        (select_where (λ d. d.definition_type == kind) s.definitions))

-- `_worker`
unfoldable pub worker_of : WorkerRow → WorkerRecord
worker_of w = record {
  worker_id = w.worker_id;
  capabilities = w.capabilities;
  queues = w.queues;
  resource_classes = w.resource_classes;
  region = w.region;
  status = w.status;
  draining = w.draining;
  metadata = w.metadata;
  last_seen = some w.last_seen;
}

abbrev pub is_worker : String → WorkerRow → Bool
is_worker i w = w.worker_id == i

-- the row that `register_worker` writes, its lists sorted
unfoldable pub worker_row : ℕ → WorkerRecord → WorkerRow
unfolding order_by text_leb
worker_row now w = record {
  worker_id = w.worker_id;
  capabilities = order_by text_leb w.capabilities;
  queues = order_by text_leb w.queues;
  resource_classes = order_by text_leb w.resource_classes;
  region = w.region;
  status = w.status;
  draining = w.draining;
  metadata = w.metadata;
  last_seen = now;
}

-- `get_worker`
unfoldable pub get_worker : String → JudgeStore → Option WorkerRecord
unfolding first_where worker_of
get_worker i s = elim (first_where (is_worker i) s.workers) [
  | none ↦ none
  | some w ↦ some (worker_of w)
]

unfoldable pub put_worker : WorkerRow → List WorkerRow → List WorkerRow
unfolding exists_where update_where
put_worker w rows =
    if exists_where (is_worker w.worker_id) rows
    then update_where (is_worker w.worker_id) (λ old. w) rows
    else rows ++ w ∷ []

-- `register_worker`
unfoldable pub register_worker : ℕ → WorkerRecord → JudgeStore → Option WorkerRecord × JudgeStore
unfolding put_worker worker_row get_worker
register_worker now w s =
    let s' : JudgeStore = record s { workers = put_worker (worker_row now w) s.workers } in
    (get_worker w.worker_id s', s')

-- `list_workers`
unfoldable pub list_workers : JudgeStore → List WorkerRecord
unfolding order_by text_leb worker_of
list_workers s = map worker_of (order_by (λ a b. text_leb a.worker_id b.worker_id) s.workers)

-- `heartbeat_worker`
unfoldable pub heartbeat_worker :
    String → String → ℕ → JudgeStore → Option WorkerRecord × JudgeStore
unfolding update_where get_worker
heartbeat_worker i status now s =
    let s' : JudgeStore = record s {
      workers =
          update_where (is_worker i) (λ w. record w { status = status; last_seen = now }) s.workers;
    } in
    (get_worker i s', s')

-- `drain_worker`
unfoldable pub drain_worker : String → Bool → ℕ → JudgeStore → Option WorkerRecord × JudgeStore
unfolding update_where get_worker
drain_worker i draining now s =
    let s' : JudgeStore = record s {
      workers =
          update_where (is_worker i) (λ w. record w { draining = draining; last_seen = now })
            s.workers;
    } in
    (get_worker i s', s')
