-- ===== src/Postgres/Capable/Steps.antt =====
-- Every call keeps the requirements lists of texts, if the metadata of each submission has one.
use brunost_judge.Prelude.{
  ℕ, String, ◌≡◌, sym, subst, inl, inr, true, Option, none, some, [], ◌∷◌, All, All-append,
}
use brunost_judge.Platform.{Platform}
use brunost_judge.Sql.Update.{All-update}
use brunost_judge.Store.{Execution, JudgeStore, has_id, lease_until, find_execution}
use brunost_judge.Store.Submit.{submitted_row, request_fingerprint}
use brunost_judge.Store.Claim.{expire_leases, lease_expired, released, lease_row, leased}
use brunost_judge.Store.Finish
use brunost_judge.Store.Finish.{
  holds_lease, finished, finish_update, can_renew, cancellation, cancel_update,
}
use brunost_judge.Store.Deliveries
use brunost_judge.Store.Steps.{Call, step}
use brunost_judge.Store.Steps.Effects.{
  submit_effect, claim_effect, finish_effect, cancel_effect, enqueue_effect,
}
use brunost_judge.Store.Idempotency.{step-tasks}
use brunost_judge.Store.Lifecycle.History.{replay_row-executions}
use brunost_judge.Postgres.Capable.{requires_texts, IsCapable, submitted_metadata-requires_texts}

abbrev HasTexts : Execution → Type 0
HasTexts e = requires_texts e.metadata ≡ true

abbrev AllTexts : JudgeStore → Type 0
AllTexts s = All HasTexts s.executions

-- the request of a submission lists its requirements as texts
abbrev pub IsCapableCall : Call → Type 0
IsCapableCall (Call.submit i now r) = requires_texts r.metadata ≡ true
IsCapableCall _ = Unit

pub expire_leases-AllTexts :
    (now : ℕ) (s : JudgeStore) → AllTexts s → AllTexts (expire_leases now s)
unfolding expire_leases
expire_leases-AllTexts now s =
    All-update HasTexts (lease_expired now) (released now) (λ e hit h. h) s.executions

lease_row-AllTexts :
    (w : String) (seconds now : ℕ) (s : JudgeStore) (row : Option Execution)
    → AllTexts s
    → AllTexts (lease_row w seconds now s row).1
unfolding lease_row
lease_row-AllTexts w seconds now s none h = h
lease_row-AllTexts w seconds now s (some row) h =
    All-update HasTexts (has_id row.execution_id) (leased w (lease_until now seconds) now)
      (λ e hit x. x) s.executions h

step-AllTexts :
    (lib : Platform) (c : Call) (s : JudgeStore)
    → IsCapableCall c
    → AllTexts s
    → AllTexts (step lib c s)
unfolding step
step-AllTexts lib (Call.submit i now r) s ok h = elim (submit_effect lib i now r s) [
  | inl same ↦ subst AllTexts (sym same) h
  | inr sub ↦
      let row = submitted_row i now (request_fingerprint lib r) sub.task.manifest r in
      subst AllTexts (sym sub.after) (
        All-append HasTexts s.executions (row ∷ []) h
          (unfold submitted_row in submitted_metadata-requires_texts i sub.task.manifest r ok, tt))
]
step-AllTexts lib (Call.claim_next w queues classes capabilities seconds now) s ok h =
    elim (claim_effect w queues classes capabilities seconds now s) [
      | inl same ↦ subst AllTexts (sym same) h
      | inr c ↦ subst AllTexts (sym c.after) (
          lease_row-AllTexts w seconds now (expire_leases now s) c.row
            (expire_leases-AllTexts now s h))
    ]
step-AllTexts lib (Call.finish i r w now later) s ok h =
    elim (finish_effect lib i r w now later s) [
      | inl same ↦ subst AllTexts (sym same) h
      | inr (stored, t, written) ↦ subst AllTexts (sym written) (
          unfold finish_update in
          All-update HasTexts (holds_lease i w now) (finished stored now) (λ e hit x. x)
            s.executions h)
    ]
step-AllTexts lib (Call.renew_lease i w seconds now) s ok h =
    unfold Finish.renew_lease in
    All-update HasTexts (can_renew i w now) _ (λ e hit x. x) s.executions h
step-AllTexts lib (Call.cancel i now later) s ok h = elim (cancel_effect i now later s) [
  | inl same ↦ subst AllTexts (sym same) h
  | inr (e, found, done) ↦ subst AllTexts (sym done) (
      unfold cancel_update in
      All-update HasTexts (has_id i) (cancellation now) (λ x hit y. y) s.executions h)
]
step-AllTexts lib (Call.enqueue_callback i url token now) s ok h =
    elim (enqueue_effect i url token now s) [
      | inl same ↦ subst AllTexts (sym same) h
      | inr written ↦ subst AllTexts (sym written) (unfold Deliveries.enqueue_row in h)
    ]
step-AllTexts lib (Call.claim_callback i w seconds now) s ok h =
    unfold Deliveries.claim_callback in h
step-AllTexts lib (Call.mark_callback_delivered i now) s ok h =
    unfold Deliveries.mark_callback_delivered in h
step-AllTexts lib (Call.mark_callback_delivered_by_owner i w now) s ok h =
    unfold Deliveries.mark_callback_delivered_by_owner in h
step-AllTexts lib (Call.mark_callback_failed i error w now) s ok h =
    unfold Deliveries.mark_callback_failed in h
step-AllTexts lib (Call.replay_callback i now) s ok h =
    unfold Deliveries.replay_callback in
    subst (All HasTexts) (sym (replay_row-executions (find_execution i s) i now s)) h

pub expire_leases-IsCapable :
    (now : ℕ) (s : JudgeStore) → IsCapable s → IsCapable (expire_leases now s)
expire_leases-IsCapable now s h = record {
  tasks = unfold expire_leases in h.tasks;
  executions = expire_leases-AllTexts now s h.executions;
}

pub step-IsCapable :
    (lib : Platform) (c : Call) (s : JudgeStore)
    → IsCapableCall c
    → IsCapable s
    → IsCapable (step lib c s)
step-IsCapable lib c s ok h = record {
  tasks = rw (step-tasks lib c s) h.tasks;
  executions = step-AllTexts lib c s ok h.executions;
}
