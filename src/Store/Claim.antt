-- ===== src/Store/Claim.antt =====
-- `claim_next` of src/brunost_judge/store.py: expired leases go back to the queue, and the first
-- compatible execution is leased to the worker.
pub mod Scan
pub mod Choice
pub mod Priority
use brunost_judge.Prelude.{
  ℕ, zero, suc, ◌+◌, String, Bool, true, false, not, ◌&&◌, Option, none, some, List, [], ◌∷◌, ◌++◌,
  map, take, drop, length, max, leb, ltb, contains, if◌then◌else◌,
}
use brunost_judge.Prelude.Int.{ltb_ℤ}
use brunost_judge.Json.{Json, str, arr, obj, Fields, end, field, get_or_null, truthy, item_list}
use brunost_judge.Text.{chars}
use brunost_judge.Conformance.{hashable}
use brunost_judge.Contracts.{Status, ExecutionResult, TaskRecord}
use brunost_judge.Sql.{select_where, first_where, update_where, exists_where, order_by}
use brunost_judge.Sql.Order.{text_leb}
use brunost_judge.Store.{
  Result, ok, err, ◌>>=◌, type_error, TaskRow, Execution, Delivery, JudgeStore, has_id, is_queued,
  is_running, lease_until,
}
use brunost_judge.Store.Submit.{result_of, get_execution, has_task_ref}
use brunost_judge.Store.Deliveries.{notify_if}
use brunost_judge.Store.Finish.{update_executions, notify_execution}

-- status='running' AND lease_expires_at IS NOT NULL AND lease_expires_at <= now
abbrev pub lease_expired : ℕ → Execution → Bool
lease_expired now e =
    is_running e.status && elim e.lease_expires_at [ none ↦ false | some t ↦ leb t now ]

abbrev pub released : ℕ → Execution → Execution
released now e = record e {
  status = if e.cancel_requested then Status.canceled else Status.queued;
  worker_id = none;
  lease_expires_at = none;
  updated_at = now;
}

-- the loop over the canceled executions whose lease has expired
unfoldable pub notify_all : ℕ → List Execution → List Delivery → List Delivery
unfolding notify_execution
notify_all now [] rows = rows
notify_all now (e ∷ es) rows = notify_all now es (notify_execution (some e) now rows)

abbrev pub is_lost_cancel : ℕ → Execution → Bool
is_lost_cancel now e = lease_expired now e && e.cancel_requested

-- the first part of `claim_next`
unfoldable pub expire_leases : ℕ → JudgeStore → JudgeStore
unfolding select_where update_where notify_all
expire_leases now s = record s {
  executions = update_where (lease_expired now) (released now) s.executions;
  callback_deliveries =
      notify_all now (select_where (is_lost_cancel now) s.executions) s.callback_deliveries;
}

-- `column IN (...)`; no names ask for no filter
unfoldable pub in_filter : List String → String → Bool
unfolding contains
in_filter [] x = true
in_filter (y ∷ ys) x = contains x (y ∷ ys)

abbrev pub is_candidate : List String → List String → JudgeStore → Execution → Bool
is_candidate queues classes s e =
    is_queued e.status
    && not e.cancel_requested
    && in_filter queues e.queue
    && in_filter classes e.resource_class
    && exists_where (has_task_ref e.task_ref) s.tasks

-- ORDER BY priority DESC, created_at, execution_id
unfoldable pub precedes : Execution → Execution → Bool
unfolding text_leb
precedes a b =
    if ltb_ℤ b.priority a.priority
    then true
    else if ltb_ℤ a.priority b.priority
    then false
    else if ltb a.created_at b.created_at
    then true
    else if ltb b.created_at a.created_at
    then false
    else text_leb a.execution_id b.execution_id

unfoldable pub all_hashable : List Json → Bool
unfolding hashable
all_hashable [] = true
all_hashable (x ∷ xs) = hashable x && all_hashable xs

keys : Fields → List Json
keys end = []
keys (field k v fs) = str k ∷ keys fs

unfoldable pub iterate : Json → Result (List Json)
unfolding item_list all_hashable keys chars
iterate (str s) = ok (map str (chars s))
iterate (arr xs) = if all_hashable (item_list xs) then ok (item_list xs) else err type_error
iterate (obj fs) = ok (keys fs)
iterate _ = err type_error

-- `set(value or ())`
unfoldable pub capability_items : Json → Result (List Json)
unfolding iterate truthy
capability_items v = if truthy v then iterate v else ok []

-- `required.issubset(available)`, for a set of texts
unfoldable pub all_available : List String → List Json → Bool
unfolding contains
all_available available [] = true
all_available available (str c ∷ rest) = contains c available && all_available available rest
all_available available (_ ∷ rest) = false

unfoldable pub manifest_of : Option TaskRow → Fields
manifest_of none = end
manifest_of (some t) = t.manifest

-- the test of one candidate
unfoldable pub is_compatible : List String → JudgeStore → Execution → Result Bool
unfolding capability_items all_available get_or_null first_where manifest_of
is_compatible available s e = do
  task ← capability_items (
      get_or_null "required_capabilities"
        (manifest_of (first_where (has_task_ref e.task_ref) s.tasks)))
  own ← capability_items (get_or_null "required_capabilities" e.metadata)
  ok (all_available available (task ++ own))

-- the loop over the rows of one page
unfoldable pub first_compatible :
    (Execution → Result Bool) → List Execution → Result (Option Execution)
first_compatible test [] = ok none
first_compatible test (e ∷ es) =
    let rest = first_compatible test es in
    elim (test e) [ err x ↦ err x | ok fits ↦ if fits then ok (some e) else rest ]

abbrev pub page_size : ℕ
page_size = 100

-- the branch on what a page holds: an empty page ends the loop, and so does a compatible row
unfoldable pub after_page :
    List Execution
    → Result (Option Execution)
    → Result (Option Execution)
    → Result (Option Execution)
after_page [] found next = ok none
after_page (x ∷ xs) (err e) next = err e
after_page (x ∷ xs) (ok (some row)) next = ok (some row)
after_page (x ∷ xs) (ok none) next = next

-- the `while row is None` loop; each round reads LIMIT 100 OFFSET offset of the same ordered rows
unfoldable pub scan_pages :
    ℕ → (Execution → Result Bool) → List Execution → ℕ → Result (Option Execution)
unfolding first_compatible after_page
scan_pages zero test rows offset = ok none
scan_pages (suc fuel) test rows offset =
    let page = take page_size (drop offset rows) in
    let next = scan_pages fuel test rows (offset + length page) in
    after_page page (first_compatible test page) next

-- what the claim hands to the worker besides the execution and its task
pub record Assignment : Type 0 where
  pub callback_url : Option String
  pub callback_token : Option String
  pub submission_path : String
  pub queue : String
  pub resource_class : String
  pub lease_seconds : ℕ

pub record Claim : Type 0 where
  pub execution : ExecutionResult
  pub task : TaskRecord
  pub assignment : Assignment

abbrev pub leased : String → ℕ → ℕ → Execution → Execution
leased w until now e = record e {
  status = Status.running;
  worker_id = some w;
  lease_expires_at = some until;
  updated_at = now;
}

claim_of : ℕ → Execution → Option TaskRow → Option ExecutionResult → Option Claim
claim_of seconds row none updated = none
claim_of seconds row (some t) none = none
claim_of seconds row (some t) (some r) = some (record {
  execution = r;
  task = record { task_ref = t.task_ref; path = t.path; kind = t.kind; manifest = t.manifest };
  assignment = record {
    callback_url = row.callback_url;
    callback_token = row.callback_token;
    submission_path = row.submission_path;
    queue = row.queue;
    resource_class = row.resource_class;
    lease_seconds = max 1 seconds;
  };
})

-- the UPDATE that leases the chosen row, and the result
unfoldable pub lease_row :
    String → ℕ → ℕ → JudgeStore → Option Execution → Option Claim × JudgeStore
unfolding update_where first_where get_execution claim_of
lease_row w seconds now s none = (none, s)
lease_row w seconds now s (some row) =
    let s' =
      update_executions (has_id row.execution_id) (leased w (lease_until now seconds) now) s in
    (
      claim_of seconds row (first_where (has_task_ref row.task_ref) s.tasks)
          (get_execution row.execution_id s'),
      s',
    )

-- the rows that the SELECT of the loop returns, in order
unfoldable pub candidates : List String → List String → JudgeStore → List Execution
unfolding select_where order_by precedes exists_where in_filter
candidates queues classes s =
    order_by precedes (select_where (is_candidate queues classes s) s.executions)

-- `claim_next`
unfoldable pub claim_next :
    String
    → List String
    → List String
    → List String
    → ℕ
    → ℕ
    → JudgeStore
    → Result (Option Claim × JudgeStore)
unfolding expire_leases candidates scan_pages lease_row is_compatible
claim_next w queues classes capabilities seconds now s =
    let expired = expire_leases now s in
    let rows = candidates queues classes expired in
    do
      row ← scan_pages (suc (length rows)) (is_compatible capabilities expired) rows 0
      ok (lease_row w seconds now expired row)
