-- ===== src/Postgres/Claim.antt =====
-- `claim_next` of the PostgreSQL store, which tests the capabilities in the query and takes one row.
use brunost_judge.Prelude.{ℕ, String, Bool, ◌&&◌, Option, none, List, [], ◌++◌, map}
use brunost_judge.Json.{Json, arr, item_list, get_or_null}
use brunost_judge.Contracts.{Status}
use brunost_judge.Sql.{select_where, first_where, update_where, order_by}
use brunost_judge.Sql.Commute.{first_row}
use brunost_judge.Sql.Order.{text_leb}
use brunost_judge.Store.{Result, ok, Execution, JudgeStore}
use brunost_judge.Store.Submit.{has_task_ref}
use brunost_judge.Store.Credentials.{distinct}
use brunost_judge.Store.Finish.{update_executions}
use brunost_judge.Store.Claim.{
  Claim, lease_expired, is_lost_cancel, released, notify_all, is_candidate, precedes, all_available,
  manifest_of, lease_row,
}

abbrev pub lost : ℕ → Execution → Execution
lost now e = record e {
  status = Status.canceled;
  worker_id = none;
  lease_expires_at = none;
  updated_at = now;
}

-- UPDATE ... SET f WHERE p RETURNING
unfoldable pub returning :
    (Execution → Bool) → (Execution → Execution) → JudgeStore → List Execution
unfolding select_where
returning p f s = map f (select_where p s.executions)

-- the two updates of the expired leases, and the outbox rows of those that were canceled
unfoldable pub expire_leases : ℕ → JudgeStore → JudgeStore
unfolding update_where returning notify_all
expire_leases now s =
    let canceled = update_executions (is_lost_cancel now) (lost now) s in
    let freed = update_executions (lease_expired now) (released now) canceled in
    record freed {
      callback_deliveries =
          notify_all now (returning (is_lost_cancel now) (lost now) s) freed.callback_deliveries;
    }

-- CASE WHEN jsonb_typeof(j) = 'array' THEN j ELSE '[]' END
unfoldable pub array_items : Json → List Json
unfolding item_list
array_items (arr xs) = item_list xs
array_items _ = []

-- the capability clause: a JSONB array of texts contains another array if each item of that is one of
-- the texts
unfoldable pub has_capabilities : List String → JudgeStore → Execution → Bool
unfolding all_available distinct order_by text_leb array_items get_or_null manifest_of first_where
has_capabilities capabilities s e = all_available (order_by text_leb (distinct capabilities)) (
    array_items (
      get_or_null "required_capabilities"
        (manifest_of (first_where (has_task_ref e.task_ref) s.tasks)))
    ++ array_items (get_or_null "required_capabilities" e.metadata))

-- the row of the SELECT ... LIMIT 1
unfoldable pub chosen_row : List String → List String → List String → JudgeStore → Option Execution
unfolding order_by precedes select_where has_capabilities
chosen_row queues classes capabilities s = first_row (
    order_by precedes (
      select_where (λ e. is_candidate queues classes s e && has_capabilities capabilities s e)
        s.executions))

-- `claim_next`
unfoldable pub claim_next :
    String
    → List String
    → List String
    → List String
    → ℕ
    → ℕ
    → JudgeStore
    → Result (Option Claim × JudgeStore)
unfolding expire_leases chosen_row lease_row
claim_next w queues classes capabilities seconds now s =
    let expired = expire_leases now s in
    ok (lease_row w seconds now expired (chosen_row queues classes capabilities expired))
