-- ===== src/Store/Lifecycle/Course.antt =====
-- The lifecycle call by call: each call moves an execution along one arrow at most, and what a
-- submission adds is in the queue.
use brunost_judge.Prelude.{refl, sym, subst, inl, inr, List, [], ◌∷◌, arith}
use brunost_judge.Platform.{Platform}
use brunost_judge.Store.{JudgeStore, has_id, find_execution, lease_until}
use brunost_judge.Store.Submit.{submitted_row}
use brunost_judge.Store.Finish
use brunost_judge.Store.Finish.{
  holds_lease, finished, finish_update, can_renew, renewed, cancellation, cancel_update,
}
use brunost_judge.Store.Deliveries
use brunost_judge.Store.Keys.{IsKeyed, step-IsKeyed}
use brunost_judge.Store.Steps.{Call, step}
use brunost_judge.Store.Steps.Effects.{
  enqueue_effect, submit_effect, claim_effect, finish_effect, cancel_effect,
}
use brunost_judge.Store.Lifecycle.{Extends}
use brunost_judge.Store.Lifecycle.History.{step-Extends, replay_row-executions}
use brunost_judge.Store.Lifecycle.Arrows.{
  same, Arrows, Arrows-refl, Arrows-append, Arrows-update, finish-Arrow, cancel-Arrow,
  Claimed-Arrows,
}

-- Each call moves each execution along one arrow at most.
step-Arrows :
    (lib : Platform) (c : Call) (s : JudgeStore)
    → IsKeyed s
    → Arrows s.executions (step lib c s).executions
unfolding step
step-Arrows lib (Call.submit i now r) s h = elim (submit_effect lib i now r s) [
  | inl still ↦ subst (λ t. Arrows s.executions t.executions) (sym still) (Arrows-refl s.executions)
  | inr sub ↦
      subst (λ t. Arrows s.executions t.executions) (sym sub.after)
        (unfold submitted_row in
          Arrows-append s.executions _ (record { waiting = refl; wanted = refl; unleased = refl }))
]
step-Arrows lib (Call.claim_next w queues classes capabilities seconds now) s h =
    elim (claim_effect w queues classes capabilities seconds now s) [
      | inl still ↦
          subst (λ t. Arrows s.executions t.executions) (sym still) (Arrows-refl s.executions)
      | inr c ↦ Claimed-Arrows w queues classes capabilities seconds now s _ h c
    ]
step-Arrows lib (Call.finish i r w now later) s h = elim (finish_effect lib i r w now later s) [
  | inl still ↦ subst (λ t. Arrows s.executions t.executions) (sym still) (Arrows-refl s.executions)
  | inr (stored, t, written) ↦
      subst (λ x. Arrows s.executions x.executions) (sym written)
        (unfold finish_update in
          Arrows-update (holds_lease i w now) (finished stored now) s.executions (λ e hit.
            finish-Arrow e.status stored.status e.cancel_requested (ground (arith, hit)) t))
]
step-Arrows lib (Call.renew_lease i w seconds now) s h =
    unfold Finish.renew_lease in
    Arrows-update (can_renew i w now) (renewed (lease_until now seconds) now) s.executions
      (λ e hit. same)
step-Arrows lib (Call.cancel i now later) s h = elim (cancel_effect i now later s) [
  | inl still ↦ subst (λ t. Arrows s.executions t.executions) (sym still) (Arrows-refl s.executions)
  | inr (e, found, done) ↦
      subst (λ x. Arrows s.executions x.executions) (sym done)
        (unfold cancel_update in
          Arrows-update (has_id i) (cancellation now) s.executions (λ x hit. cancel-Arrow x.status))
]
step-Arrows lib (Call.enqueue_callback i url token now) s h =
    elim (enqueue_effect i url token now s) [
      | inl still ↦
          subst (λ t. Arrows s.executions t.executions) (sym still) (Arrows-refl s.executions)
      | inr written ↦
          subst (λ t. Arrows s.executions t.executions) (sym written)
            (unfold Deliveries.enqueue_row in Arrows-refl s.executions)
    ]
step-Arrows lib (Call.claim_callback i w seconds now) s h =
    unfold Deliveries.claim_callback in Arrows-refl s.executions
step-Arrows lib (Call.mark_callback_delivered i now) s h =
    unfold Deliveries.mark_callback_delivered in Arrows-refl s.executions
step-Arrows lib (Call.mark_callback_delivered_by_owner i w now) s h =
    unfold Deliveries.mark_callback_delivered_by_owner in Arrows-refl s.executions
step-Arrows lib (Call.mark_callback_failed i error w now) s h =
    unfold Deliveries.mark_callback_failed in Arrows-refl s.executions
step-Arrows lib (Call.replay_callback i now) s h =
    unfold Deliveries.replay_callback in
    subst (λ t. Arrows s.executions t) (sym (replay_row-executions (find_execution i s) i now s))
      (Arrows-refl s.executions)

-- along a history, each call extends the table before it, by one arrow at most for each execution
abbrev pub IsCourse : Platform → List Call → JudgeStore → Type 0
IsCourse lib [] s = Unit
IsCourse lib (c ∷ cs) s =
    let s' = step lib c s in
    (Extends s.executions s'.executions × Arrows s.executions s'.executions) × IsCourse lib cs s'

-- In any history of calls on a store with unique keys, each call leaves every execution where it is, or
-- moves it along one arrow of the lifecycle, and keeps its request, a requested cancellation, and the
-- status and the published outcome of a terminal one; and what a call adds is in the queue, without a
-- lease and without a requested cancellation.
pub run-IsCourse :
    (lib : Platform) (cs : List Call) (s : JudgeStore) → IsKeyed s → IsCourse lib cs s
run-IsCourse lib [] s h = tt
run-IsCourse lib (c ∷ cs) s h = (
  (step-Extends lib c s h, step-Arrows lib c s h),
  run-IsCourse lib cs (step lib c s) (step-IsKeyed lib c s h),
)
