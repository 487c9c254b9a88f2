-- ===== src/Postgres/Registry.antt =====
-- The registries of the PostgreSQL store: tasks and definitions are inserted first and compared when
-- they are read back; the lists of a worker are stored in their order.
use brunost_judge.Prelude.{
  ℕ, String, Bool, Option, none, some, List, [], ◌∷◌, ◌++◌, map, ◌==◌, if◌then◌else◌,
}
use brunost_judge.Json.{obj, Fields, json_eq}
use brunost_judge.Contracts.{TaskRecord, WorkerRecord}
use brunost_judge.Sql.{select_where, first_where, update_where, exists_where, order_by}
use brunost_judge.Sql.Order.{text_leb}
use brunost_judge.Store.{
  Result, ok, err, immutable_task, immutable_definition, lost_insert, data_error, TaskRow,
  DefinitionRow, WorkerRow, JudgeStore,
}
use brunost_judge.Store.Submit.{has_task_ref}
use brunost_judge.Postgres.Columns.{Columns}
use brunost_judge.Store.Registry.{
  task_row, same_task, task_of, is_definition, definition_fields, is_worker, worker_of, put_worker,
}

-- INSERT ... ON CONFLICT(task_ref) DO NOTHING
unfoldable pub insert_task_once : TaskRow → JudgeStore → JudgeStore
unfolding exists_where
insert_task_once row s =
    if exists_where (has_task_ref row.task_ref) s.tasks
    then s
    else record s { tasks = s.tasks ++ row ∷ [] }

-- the comparison with the row that is read back; an exception rolls the transaction back
unfoldable pub compare_task :
    TaskRecord → Option TaskRow → JudgeStore → Result (TaskRecord × JudgeStore)
unfolding same_task
compare_task t none s = err lost_insert
compare_task t (some row) s = if same_task row t then ok (t, s) else err immutable_task

-- `register_task`
unfoldable pub register_task :
    Columns → ℕ → TaskRecord → JudgeStore → Result (TaskRecord × JudgeStore)
unfolding task_row insert_task_once first_where compare_task
register_task cols now t s = elim (cols.task (task_row now t)) [
  | none ↦ err data_error
  | some row ↦
      let s' = insert_task_once row s in
      compare_task t (first_where (has_task_ref t.task_ref) s'.tasks) s'
]

-- `get_task`
unfoldable pub get_task : String → JudgeStore → Option TaskRecord
unfolding first_where task_of
get_task r s = elim (first_where (has_task_ref r) s.tasks) [
  | none ↦ none
  | some row ↦ some (task_of row)
]

-- `list_tasks`
unfoldable pub list_tasks : JudgeStore → List TaskRecord
unfolding order_by text_leb task_of
list_tasks s = map task_of (order_by (λ a b. text_leb a.task_ref b.task_ref) s.tasks)

-- INSERT ... ON CONFLICT(definition_type, definition_id) DO NOTHING
unfoldable pub insert_definition_once : DefinitionRow → JudgeStore → JudgeStore
unfolding exists_where
insert_definition_once d s =
    if exists_where (is_definition d.definition_type d.definition_id) s.definitions
    then s
    else record s { definitions = s.definitions ++ d ∷ [] }

abbrev pub definition_row : ℕ → String → String → Fields → DefinitionRow
definition_row now kind i payload = record {
  definition_type = kind;
  definition_id = i;
  payload = payload;
  created_at = now;
  updated_at = now;
}

unfoldable pub compare_definition :
    String → String → Fields → Option DefinitionRow → JudgeStore → Result (Fields × JudgeStore)
unfolding json_eq definition_fields
compare_definition kind i payload none s = err lost_insert
compare_definition kind i payload (some d) s =
    if json_eq (obj d.payload) (obj payload)
    then ok (definition_fields kind i payload, s)
    else err immutable_definition

-- `register_definition`
unfoldable pub register_definition :
    Columns → ℕ → String → String → Fields → JudgeStore → Result (Fields × JudgeStore)
unfolding insert_definition_once first_where compare_definition
register_definition cols now kind i payload s =
    elim (cols.definition (definition_row now kind i payload)) [
      | none ↦ err data_error
      | some d ↦
          let s' = insert_definition_once d s in
          compare_definition kind i payload (first_where (is_definition kind i) s'.definitions) s'
    ]

-- `get_definition`
unfoldable pub get_definition : String → String → JudgeStore → Option Fields
unfolding first_where definition_fields
get_definition kind i s = elim (first_where (is_definition kind i) s.definitions) [
  | none ↦ none
  | some d ↦ some (definition_fields d.definition_type d.definition_id d.payload)
]

-- `list_definitions`
unfoldable pub list_definitions : String → JudgeStore → List Fields
unfolding select_where order_by text_leb definition_fields
list_definitions kind s =
    map (λ d. definition_fields d.definition_type d.definition_id d.payload)
      (order_by (λ a b. text_leb a.definition_id b.definition_id)
        (select_where (λ d. d.definition_type == kind) s.definitions))

-- the row that `register_worker` writes
unfoldable pub worker_row_as_sent : ℕ → WorkerRecord → WorkerRow
worker_row_as_sent now w = record {
  worker_id = w.worker_id;
  capabilities = w.capabilities;
  queues = w.queues;
  resource_classes = w.resource_classes;
  region = w.region;
  status = w.status;
  draining = w.draining;
  metadata = w.metadata;
  last_seen = now;
}

-- `get_worker`
unfoldable pub get_worker : String → JudgeStore → Option WorkerRecord
unfolding first_where worker_of
get_worker i s = elim (first_where (is_worker i) s.workers) [
  | none ↦ none
  | some w ↦ some (worker_of w)
]

-- `register_worker`
unfoldable pub register_worker :
    Columns → ℕ → WorkerRecord → JudgeStore → Result (Option WorkerRecord × JudgeStore)
unfolding put_worker worker_row_as_sent get_worker
register_worker cols now w s = elim (cols.worker (worker_row_as_sent now w)) [
  | none ↦ err data_error
  | some row ↦
      let s' : JudgeStore = record s { workers = put_worker row s.workers } in
      ok (get_worker w.worker_id s', s')
]

-- `list_workers`
unfoldable pub list_workers : JudgeStore → List WorkerRecord
unfolding order_by text_leb worker_of
list_workers s = map worker_of (order_by (λ a b. text_leb a.worker_id b.worker_id) s.workers)

-- `heartbeat_worker`
unfoldable pub heartbeat_worker :
    String → String → ℕ → JudgeStore → Option WorkerRecord × JudgeStore
unfolding update_where get_worker
heartbeat_worker i status now s =
    let s' : JudgeStore = record s {
      workers =
          update_where (is_worker i) (λ w. record w { status = status; last_seen = now }) s.workers;
    } in
    (get_worker i s', s')

-- `drain_worker`
unfoldable pub drain_worker : String → Bool → ℕ → JudgeStore → Option WorkerRecord × JudgeStore
unfolding update_where get_worker
drain_worker i draining now s =
    let s' : JudgeStore = record s {
      workers =
          update_where (is_worker i) (λ w. record w { draining = draining; last_seen = now })
            s.workers;
    } in
    (get_worker i s', s')
