-- ===== src/Store/Outbox.antt =====
-- The transactional outbox: an execution that has ended and has a callback has a delivery row.
pub mod Calls
pub mod History
use brunost_judge.Prelude.{
  ℕ, suc, ◌≤◌, String, ◌≡◌, refl, sym, ap, ◌∙◌, subst, inl, inr, Bool, true, false, ◌&&◌, not,
  Bool-cases, Option, none, some, List, [], ◌∷◌, ◌++◌, All, All-append, arith, ◌==◌, eq_refl,
  eq_iff, ==→eq, nat_eq, if◌then◌else◌,
}
use brunost_judge.Platform.{Platform}
use brunost_judge.Contracts.{ExecutionRequest, ExecutionResult, is_terminal}
use brunost_judge.Sql.{select_where, first_where, update_where, rowcount, exists_where}
use brunost_judge.Sql.Update.{first-update, exists-update, exists-append, first-satisfies}
use brunost_judge.Sql.Keys.{
  Occurs, Occurs-determined, All-Occurs, All-of_Occurs, All-of_update, first-Occurs, Occurs-select,
}
use brunost_judge.Store.{
  Execution, Delivery, JudgeStore, is_for, has_id, find_execution, truthy_text, is_queued,
  is_running, lease_until,
}
use brunost_judge.Store.Submit.{submitted_row}
use brunost_judge.Store.Claim.{
  lease_expired, released, expire_leases, leased, lease_row, notify_all, is_lost_cancel,
}
use brunost_judge.Store.Finish
use brunost_judge.Store.Finish.{
  holds_lease, finished, finish_update, can_renew, renewed, cancellation, cancel_update,
  notify_execution, update_executions,
}
use brunost_judge.Store.Deliveries
use brunost_judge.Store.Deliveries.{upsert, notify, notify_if, new_delivery}
use brunost_judge.Store.Keys.{IsKeyed, step-IsKeyed, expire_leases-IsKeyed, execution_key}
use brunost_judge.Store.Steps.{Call, step, run}
use brunost_judge.Store.Steps.Effects.{
  Submitted, submit_effect, claim_effect, finish_effect, cancel_effect,
}
use brunost_judge.Store.Lifecycle.History.{replay_row-executions, Claimed-row}

abbrev pub HasDelivery : String → List Delivery → Type 0
HasDelivery i cs = exists_where (is_for i) cs ≡ true

-- An UPSERT keeps every delivery row, and its own row is there afterwards.
upsert-keeps :
    (p : Delivery → Bool) (f : Delivery → Delivery) (c : Delivery) (i : String)
    (rows : List Delivery)
    → ((d : Delivery) → (f d).execution_id ≡ d.execution_id)
    → HasDelivery i rows
    → HasDelivery i (upsert p f c rows)
unfolding upsert
upsert-keeps p f c i rows keep h = elim (Bool-cases (exists_where (is_for c.execution_id) rows)) [
  | inl old ↦ rw old (exists-update (is_for i) _ f (λ d. rw keep) rows ∙ h)
  | inr new ↦ rw new (ground (arith, exists-append (is_for i) rows (c ∷ [])))
]

upsert-adds :
    (p : Delivery → Bool) (f : Delivery → Delivery) (c : Delivery) (rows : List Delivery)
    → ((d : Delivery) → (f d).execution_id ≡ d.execution_id)
    → HasDelivery c.execution_id (upsert p f c rows)
unfolding upsert
upsert-adds p f c rows keep = elim (Bool-cases (exists_where (is_for c.execution_id) rows)) [
  | inl old ↦ rw old (exists-update (is_for c.execution_id) _ f (λ d. rw keep) rows ∙ old)
  | inr new ↦ rw new (
      unfold exists_where in
      ground (arith, exists-append (is_for c.execution_id) rows (c ∷ []), eq_refl c.execution_id))
]

notify_if-keeps :
    (j : String) (url token : Option String) (now : ℕ) (i : String) (rows : List Delivery)
    → HasDelivery i rows
    → HasDelivery i (notify_if j url token now rows)
unfolding notify_if notify
notify_if-keeps j none token now i rows h = h
notify_if-keeps j (some url) token now i rows h = elim (Bool-cases (url == "")) [
  | inl empty ↦ rw empty h
  | inr given ↦ rw given (upsert-keeps _ _ _ i rows (λ d. refl) h)
]

notify_if-adds :
    (i : String) (url token : Option String) (now : ℕ) (rows : List Delivery)
    → truthy_text url ≡ true
    → HasDelivery i (notify_if i url token now rows)
unfolding notify_if notify
notify_if-adds i none token now rows t = absurd (cc)
notify_if-adds i (some url) token now rows t = elim (Bool-cases (url == "")) [
  | inl empty ↦ absurd (ground arith)
  | inr given ↦ rw given (upsert-adds _ _ (new_delivery i url token now) rows (λ d. refl))
]

notify_execution-keeps :
    (e : Option Execution) (now : ℕ) (i : String) (rows : List Delivery)
    → HasDelivery i rows
    → HasDelivery i (notify_execution e now rows)
unfolding notify_execution
notify_execution-keeps none now i rows h = h
notify_execution-keeps (some e) now i rows h =
    notify_if-keeps e.execution_id e.callback_url e.callback_token now i rows h

notify_execution-adds :
    (e : Execution) (now : ℕ) (rows : List Delivery)
    → truthy_text e.callback_url ≡ true
    → HasDelivery e.execution_id (notify_execution (some e) now rows)
unfolding notify_execution
notify_execution-adds e now rows t =
    notify_if-adds e.execution_id e.callback_url e.callback_token now rows t

notify_all-keeps :
    (now : ℕ) (es : List Execution) (i : String) (rows : List Delivery)
    → HasDelivery i rows
    → HasDelivery i (notify_all now es rows)
unfolding notify_all
notify_all-keeps now [] i rows h = h
notify_all-keeps now (e ∷ es) i rows h =
    notify_all-keeps now es i (notify_execution (some e) now rows)
      (notify_execution-keeps (some e) now i rows h)

notify_all-adds :
    (now : ℕ) (es : List Execution) (e : Execution) (rows : List Delivery)
    → Occurs e es
    → truthy_text e.callback_url ≡ true
    → HasDelivery e.execution_id (notify_all now es rows)
unfolding notify_all
notify_all-adds now [] e rows o t = absurd o
notify_all-adds now (x ∷ es) e rows (inl same) t =
    notify_all-keeps now es e.execution_id (notify_execution (some x) now rows) (
      subst (λ y. HasDelivery y.execution_id (notify_execution (some x) now rows)) (sym same)
        (notify_execution-adds x now rows (subst (λ y. truthy_text y.callback_url ≡ true) same t)))
notify_all-adds now (x ∷ es) e rows (inr o) t =
    notify_all-adds now es e (notify_execution (some x) now rows) o t

-- what the outbox owes an execution
abbrev pub IsAnnounced : List Delivery → Execution → Type 0
IsAnnounced cs e =
    is_terminal e.status ≡ true → truthy_text e.callback_url ≡ true → HasDelivery e.execution_id cs

abbrev pub HasOutbox : JudgeStore → Type 0
HasOutbox s = All (IsAnnounced s.callback_deliveries) s.executions
