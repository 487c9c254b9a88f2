-- ===== src/Store/Keys.antt =====
-- The keys of the tables: execution identifiers, idempotency keys, and one delivery for each
-- execution. Every call keeps them unique.
use brunost_judge.Prelude.{
  ℕ, String, ◌≡◌, refl, sym, subst, inl, inr, Bool, not, ◌&&◌, Bool-cases, Option, none, some, List,
  [], ◌∷◌, ◌==◌, nat_eq,
}
use brunost_judge.Platform.{Platform}
use brunost_judge.Contracts.{ExecutionRequest, ExecutionResult, is_terminal}
use brunost_judge.Sql.{select_where, update_where, rowcount, exists_where}
use brunost_judge.Sql.Keys.{IsUnique, IsUnique-update, IsUnique-append}
use brunost_judge.Store.{
  Execution, Delivery, JudgeStore, empty_store, find_execution, is_for, is_queued,
}
use brunost_judge.Store.Submit
use brunost_judge.Store.Submit.{has_key, has_task_ref}
use brunost_judge.Store.Claim
use brunost_judge.Store.Finish
use brunost_judge.Store.Deliveries
use brunost_judge.Store.Deliveries.{upsert, notify, notify_if}
use brunost_judge.Store.Finish.{notify_execution, commit_finish, validate_finish_result}
use brunost_judge.Store.Steps.{Call, step, run}
use brunost_judge.Store.Steps.Effects.{
  Submitted, submit_effect, claim_effect, finish_effect, cancel_effect, enqueue_effect,
}

abbrev pub execution_key : Execution → String
execution_key e = e.execution_id

abbrev pub request_key : Execution → String
request_key e = e.idempotency_key

abbrev pub delivery_key : Delivery → String
delivery_key c = c.execution_id

pub record IsKeyed (s : JudgeStore) : Type 0 where
  pub execution_ids : IsUnique execution_key s.executions
  pub idempotency_keys : IsUnique request_key s.executions
  pub deliveries : IsUnique delivery_key s.callback_deliveries

-- an update of the executions that keeps both keys, and deliveries that are unique again
module _ (s : JudgeStore) (h : IsKeyed s) where
  pub updated-IsKeyed :
      (p : Execution → Bool) (f : Execution → Execution)
      → ((e : Execution) → execution_key (f e) ≡ execution_key e)
      → ((e : Execution) → request_key (f e) ≡ request_key e)
      → (cs : List Delivery) → IsUnique delivery_key cs
      → IsKeyed (record s { executions = update_where p f s.executions; callback_deliveries = cs })
  updated-IsKeyed p f keeps_id keeps_key cs u = record {
    execution_ids = IsUnique-update execution_key p f keeps_id s.executions h.execution_ids;
    idempotency_keys = IsUnique-update request_key p f keeps_key s.executions h.idempotency_keys;
    deliveries = u;
  }

  delivered-IsKeyed :
      (cs : List Delivery)
      → IsUnique delivery_key cs
      → IsKeyed (record s { callback_deliveries = cs })
  delivered-IsKeyed cs u = record {
    execution_ids = h.execution_ids;
    idempotency_keys = h.idempotency_keys;
    deliveries = u;
  }

  update_deliveries-IsKeyed :
      (p : Delivery → Bool) (f : Delivery → Delivery)
      → ((c : Delivery) → delivery_key (f c) ≡ delivery_key c)
      → IsKeyed (record s { callback_deliveries = update_where p f s.callback_deliveries })
  update_deliveries-IsKeyed p f keeps =
      delivered-IsKeyed _
        (IsUnique-update delivery_key p f keeps s.callback_deliveries h.deliveries)

upsert-IsUnique :
    (p : Delivery → Bool) (f : Delivery → Delivery) (c : Delivery) (rows : List Delivery)
    → ((d : Delivery) → delivery_key (f d) ≡ delivery_key d)
    → IsUnique delivery_key rows
    → IsUnique delivery_key (upsert p f c rows)
unfolding upsert
upsert-IsUnique p f c rows keeps u = elim (Bool-cases (exists_where (is_for c.execution_id) rows)) [
  | inl old ↦ rw old (IsUnique-update delivery_key _ f keeps rows u)
  | inr new ↦ rw new (IsUnique-append delivery_key rows c new u)
]

notify_if-IsUnique :
    (i : String) (url token : Option String) (now : ℕ) (rows : List Delivery)
    → IsUnique delivery_key rows
    → IsUnique delivery_key (notify_if i url token now rows)
unfolding notify_if notify
notify_if-IsUnique i none token now rows u = u
notify_if-IsUnique i (some url) token now rows u = elim (Bool-cases (url == "")) [
  | inl empty ↦ rw empty u
  | inr url_given ↦ rw url_given (upsert-IsUnique _ _ _ rows (λ d. refl) u)
]

pub notify_execution-IsUnique :
    (e : Option Execution) (now : ℕ) (rows : List Delivery)
    → IsUnique delivery_key rows
    → IsUnique delivery_key (notify_execution e now rows)
unfolding notify_execution
notify_execution-IsUnique none now rows u = u
notify_execution-IsUnique (some e) now rows u =
    notify_if-IsUnique e.execution_id e.callback_url e.callback_token now rows u

notify_all-IsUnique :
    (now : ℕ) (es : List Execution) (rows : List Delivery)
    → IsUnique delivery_key rows
    → IsUnique delivery_key (Claim.notify_all now es rows)
unfolding Claim.notify_all
notify_all-IsUnique now [] rows u = u
notify_all-IsUnique now (e ∷ es) rows u =
    notify_all-IsUnique now es (notify_execution (some e) now rows)
      (notify_execution-IsUnique (some e) now rows u)

pub expire_leases-IsKeyed :
    (now : ℕ) (s : JudgeStore) → IsKeyed s → IsKeyed (Claim.expire_leases now s)
unfolding Claim.expire_leases
expire_leases-IsKeyed now s h =
    updated-IsKeyed s h _ _ (λ e. refl) (λ e. refl) _
      (notify_all-IsUnique now (select_where (Claim.is_lost_cancel now) s.executions)
        s.callback_deliveries h.deliveries)

pub lease_row-IsKeyed :
    (w : String) (seconds now : ℕ) (s : JudgeStore) (row : Option Execution)
    → IsKeyed s
    → IsKeyed (Claim.lease_row w seconds now s row).1
unfolding Claim.lease_row
lease_row-IsKeyed w seconds now s none h = h
lease_row-IsKeyed w seconds now s (some row) h =
    updated-IsKeyed s h _ _ (λ e. refl) (λ e. refl) _ h.deliveries

finish_update-IsKeyed :
    (i : String) (r : ExecutionResult) (w : String) (now later : ℕ) (s : JudgeStore)
    → IsKeyed s
    → IsKeyed (Finish.finish_update i r w now later s)
unfolding Finish.finish_update
finish_update-IsKeyed i r w now later s h =
    updated-IsKeyed s h _ _ (λ e. refl) (λ e. refl) _
      (elim (Bool-cases (nat_eq (rowcount (Finish.holds_lease i w now) s.executions) 1)) [
        | inl one ↦ rw one (
            notify_execution-IsUnique
              (find_execution i
                (Finish.update_executions (Finish.holds_lease i w now) (Finish.finished r now) s))
              later s.callback_deliveries h.deliveries)
        | inr other ↦ rw other h.deliveries
      ])

cancel_update-IsKeyed :
    (i : String) (now later : ℕ) (s : JudgeStore) (e : Execution)
    → IsKeyed s
    → IsKeyed (Finish.cancel_update i now later s e)
unfolding Finish.cancel_update
cancel_update-IsKeyed i now later s e h =
    updated-IsKeyed s h _ _ (λ x. refl) (λ x. refl) _
      (elim (Bool-cases (is_queued e.status)) [
        | inl waiting ↦
            rw waiting (notify_execution-IsUnique (some e) later s.callback_deliveries h.deliveries)
        | inr other ↦ rw other h.deliveries
      ])

Submitted-IsKeyed :
    (lib : Platform) (i : String) (now : ℕ) (r : ExecutionRequest) (s s' : JudgeStore)
    → IsKeyed s
    → Submitted lib i now r s s'
    → IsKeyed s'
unfolding Submit.submitted_row
Submitted-IsKeyed lib i now r s s' h sub = subst IsKeyed (sym sub.after) (record {
  execution_ids = IsUnique-append execution_key s.executions _ sub.new_id h.execution_ids;
  idempotency_keys = IsUnique-append request_key s.executions _ sub.new_key h.idempotency_keys;
  deliveries = h.deliveries;
})

replay_url-IsKeyed :
    (url : Option String) (e : Execution) (i : String) (now : ℕ) (s : JudgeStore)
    → IsKeyed s
    → IsKeyed (Deliveries.replay_url url e i now s).1
unfolding Deliveries.replay_url
replay_url-IsKeyed none e i now s h = h
replay_url-IsKeyed (some url) e i now s h =
    elim (Bool-cases (is_terminal e.status && not (url == ""))) [
      | inl due ↦ rw due (
          delivered-IsKeyed s h _
            (upsert-IsUnique _ _ _ s.callback_deliveries (λ d. refl) h.deliveries))
      | inr not_due ↦ rw not_due h
    ]

replay_row-IsKeyed :
    (o : Option Execution) (i : String) (now : ℕ) (s : JudgeStore)
    → IsKeyed s
    → IsKeyed (Deliveries.replay_row o i now s).1
unfolding Deliveries.replay_row
replay_row-IsKeyed none i now s h = h
replay_row-IsKeyed (some e) i now s h = replay_url-IsKeyed e.callback_url e i now s h

-- Each call keeps the keys unique.
pub step-IsKeyed : (lib : Platform) (c : Call) (s : JudgeStore) → IsKeyed s → IsKeyed (step lib c s)
unfolding step
step-IsKeyed lib (Call.submit i now r) s h = elim (submit_effect lib i now r s) [
  | inl same ↦ subst IsKeyed (sym same) h
  | inr sub ↦ Submitted-IsKeyed lib i now r s _ h sub
]
step-IsKeyed lib (Call.claim_next w queues classes capabilities seconds now) s h =
    elim (claim_effect w queues classes capabilities seconds now s) [
      | inl same ↦ subst IsKeyed (sym same) h
      | inr c ↦
          subst IsKeyed (sym c.after)
            (lease_row-IsKeyed w seconds now _ c.row (expire_leases-IsKeyed now s h))
    ]
step-IsKeyed lib (Call.finish i r w now later) s h = elim (finish_effect lib i r w now later s) [
  | inl same ↦ subst IsKeyed (sym same) h
  | inr (stored, t, written) ↦
      subst IsKeyed (sym written) (finish_update-IsKeyed i stored w now later s h)
]
step-IsKeyed lib (Call.renew_lease i w seconds now) s h =
    unfold Finish.renew_lease in updated-IsKeyed s h _ _ (λ e. refl) (λ e. refl) _ h.deliveries
step-IsKeyed lib (Call.cancel i now later) s h = elim (cancel_effect i now later s) [
  | inl same ↦ subst IsKeyed (sym same) h
  | inr (e, found, done) ↦ subst IsKeyed (sym done) (cancel_update-IsKeyed i now later s e h)
]
step-IsKeyed lib (Call.enqueue_callback i url token now) s h =
    elim (enqueue_effect i url token now s) [
      | inl same ↦ subst (IsKeyed) (sym same) h
      | inr written ↦ subst (IsKeyed) (sym written) (
          unfold Deliveries.enqueue_row in
          delivered-IsKeyed s h _
            (upsert-IsUnique _ _ _ s.callback_deliveries (λ d. refl) h.deliveries))
    ]
step-IsKeyed lib (Call.claim_callback i w seconds now) s h =
    unfold Deliveries.claim_callback in update_deliveries-IsKeyed s h _ _ (λ c. refl)
step-IsKeyed lib (Call.mark_callback_delivered i now) s h =
    unfold Deliveries.mark_callback_delivered in update_deliveries-IsKeyed s h _ _ (λ c. refl)
step-IsKeyed lib (Call.mark_callback_delivered_by_owner i w now) s h =
    unfold Deliveries.mark_callback_delivered_by_owner in
    update_deliveries-IsKeyed s h _ _ (λ c. refl)
step-IsKeyed lib (Call.mark_callback_failed i error w now) s h =
    unfold Deliveries.mark_callback_failed in update_deliveries-IsKeyed s h _ _ (λ c. refl)
step-IsKeyed lib (Call.replay_callback i now) s h =
    unfold Deliveries.replay_callback in replay_row-IsKeyed (find_execution i s) i now s h

-- Whatever is called on a store with unique keys, its keys stay unique.
pub run-IsKeyed :
    (lib : Platform) (cs : List Call) (s : JudgeStore) → IsKeyed s → IsKeyed (run lib cs s)
unfolding run
run-IsKeyed lib [] s h = h
run-IsKeyed lib (c ∷ cs) s h = run-IsKeyed lib cs (step lib c s) (step-IsKeyed lib c s h)

pub empty-IsKeyed : IsKeyed empty_store
empty-IsKeyed = record { execution_ids = tt; idempotency_keys = tt; deliveries = tt }
