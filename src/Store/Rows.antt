-- ===== src/Store/Rows.antt =====
-- What holds of every row of `executions`: leases belong to running rows, a row with a requested
-- cancellation is not in the queue, and nothing is published before the end.
use brunost_judge.Prelude.{
  ℕ, String, ◌≡◌, refl, sym, ap, ◌∙◌, subst, ==→eq, inl, inr, Bool, true, false, ◌&&◌, Option, none,
  some, List, [], ◌∷◌, All, All-append, arith, if◌then◌else◌,
}
use brunost_judge.Json.{null, obj, end}
use brunost_judge.Platform.{Platform}
use brunost_judge.Contracts.{Status, ExecutionRequest, ExecutionResult, is_terminal}
use brunost_judge.Sql.Update.{All-update}
use brunost_judge.Sql.Keys.{Occurs, Occurs-determined, All-Occurs, All-of_update}
use brunost_judge.Store.{
  Execution, JudgeStore, has_id, find_execution, is_queued, is_running, lease_until,
}
use brunost_judge.Store.Submit.{submitted_row}
use brunost_judge.Store.Claim.{lease_expired, released, expire_leases, leased, lease_row}
use brunost_judge.Store.Finish
use brunost_judge.Store.Finish.{
  holds_lease, finished, finish_update, can_renew, renewed, cancellation, cancel_update,
}
use brunost_judge.Store.Deliveries
use brunost_judge.Store.Keys.{IsKeyed, step-IsKeyed, expire_leases-IsKeyed, execution_key}
use brunost_judge.Store.Steps.{Call, step, run}
use brunost_judge.Store.Steps.Effects.{
  Submitted, submit_effect, claim_effect, finish_effect, cancel_effect, enqueue_effect,
}
use brunost_judge.Store.Lifecycle.History.{replay_row-executions, Claimed-row}

abbrev is_some {ℓ} : {A : Type ℓ} → Option A → Bool
is_some none = false
is_some (some a) = true

-- one of the five statuses of the store
abbrev pub is_known : Status → Bool
is_known (Status.other t) = false
is_known _ = true

-- a worker and a lease on a running row, and on no other
abbrev pub lease_fits : Execution → Bool
lease_fits e =
    if is_running e.status
    then is_some e.worker_id && is_some e.lease_expires_at
    else (if is_some e.worker_id then false else if is_some e.lease_expires_at then false else true)

pub record IsRow (e : Execution) : Type 0 where
  pub known : is_known e.status ≡ true
  pub lease : lease_fits e ≡ true
  pub queue_is_live : is_queued e.status ≡ true → e.cancel_requested ≡ false
  pub no_score_yet : is_terminal e.status ≡ false → e.score ≡ null
  pub no_scores_yet : is_terminal e.status ≡ false → e.scores ≡ obj end
  pub no_winner_yet : is_terminal e.status ≡ false → e.winner ≡ null
  pub no_metrics_yet : is_terminal e.status ≡ false → e.metrics ≡ obj end
  pub no_reason_yet : is_terminal e.status ≡ false → e.failure_reason ≡ null
  pub no_artifacts_yet : is_terminal e.status ≡ false → e.artifacts ≡ obj end

known_terminal : (t : Status) → is_terminal t ≡ true → is_known t ≡ true
known_terminal (Status.other t) h = absurd (cc)
known_terminal _ h = refl

module _ (e : Execution) (now : ℕ) (h : IsRow e) where
  finished-IsRow : (r : ExecutionResult) → is_terminal r.status ≡ true → IsRow (finished r now e)
  finished-IsRow r t = ground (arith, known_terminal r.status t)

  released-IsRow : is_running e.status ≡ true → IsRow (released now e)
  released-IsRow run = ground arith

  renewed-IsRow :
      (until : ℕ) (i w : String) → can_renew i w now e ≡ true → IsRow (renewed until now e)
  renewed-IsRow until i w may = ground arith

  cancellation-IsRow : IsRow (cancellation now e)
  cancellation-IsRow = ground arith

  leased-IsRow : (w : String) (until : ℕ) → is_queued e.status ≡ true → IsRow (leased w until now e)
  leased-IsRow w until waiting = ground arith

abbrev pub AllRows : JudgeStore → Type 0
AllRows s = All IsRow s.executions

Submitted-IsRow :
    (lib : Platform) (i : String) (now : ℕ) (r : ExecutionRequest) (s s' : JudgeStore)
    → AllRows s
    → Submitted lib i now r s s'
    → AllRows s'
unfolding submitted_row
Submitted-IsRow lib i now r s s' h sub =
    subst AllRows (sym sub.after) (All-append IsRow s.executions _ h (ground arith, tt))

expire_leases-AllRows : (now : ℕ) (s : JudgeStore) → AllRows s → AllRows (expire_leases now s)
unfolding expire_leases
expire_leases-AllRows now s =
    All-update IsRow (lease_expired now) (released now)
      (λ e hit h. released-IsRow e now h (ground arith)) s.executions

lease_row-AllRows :
    (w : String) (seconds now : ℕ) (s : JudgeStore) (row : Option Execution)
    → IsKeyed s
    → ((r : Execution) → row ≡ some r → Occurs r s.executions × (is_queued r.status ≡ true))
    → AllRows s
    → AllRows (lease_row w seconds now s row).1
unfolding lease_row
lease_row-AllRows w seconds now s none k chosen h = h
lease_row-AllRows w seconds now s (some row) k chosen h =
    let (at, waiting) = chosen row refl in
    All-of_update (has_id row.execution_id) (leased w (lease_until now seconds) now) s.executions
      (λ e o. All-Occurs IsRow s.executions e h o)
      λ e o same.
        let e_is_row : e ≡ row =
          Occurs-determined execution_key e row s.executions k.execution_ids o at
            (==→eq _ _ same) in
        leased-IsRow e now (All-Occurs IsRow s.executions e h o) w (lease_until now seconds)
          (ap (λ x. is_queued x.status) e_is_row ∙ waiting)

-- Each call keeps the row invariant.
pub step-AllRows :
    (lib : Platform) (c : Call) (s : JudgeStore) → IsKeyed s → AllRows s → AllRows (step lib c s)
unfolding step
step-AllRows lib (Call.submit i now r) s k h = elim (submit_effect lib i now r s) [
  | inl same ↦ subst AllRows (sym same) h
  | inr sub ↦ Submitted-IsRow lib i now r s _ h sub
]
step-AllRows lib (Call.claim_next w queues classes capabilities seconds now) s k h =
    elim (claim_effect w queues classes capabilities seconds now s) [
      | inl same ↦ subst AllRows (sym same) h
      | inr c ↦ subst AllRows (sym c.after) (
          lease_row-AllRows w seconds now (expire_leases now s) c.row
            (expire_leases-IsKeyed now s k)
            (Claimed-row w queues classes capabilities seconds now s _ c)
            (expire_leases-AllRows now s h))
    ]
step-AllRows lib (Call.finish i r w now later) s k h = elim (finish_effect lib i r w now later s) [
  | inl same ↦ subst AllRows (sym same) h
  | inr (stored, t, written) ↦ subst AllRows (sym written) (
      unfold finish_update in
      All-update IsRow (holds_lease i w now) (finished stored now)
        (λ e hit x. finished-IsRow e now x stored t) s.executions h)
]
step-AllRows lib (Call.renew_lease i w seconds now) s k h =
    unfold Finish.renew_lease in
    All-update IsRow (can_renew i w now) _ (λ e hit x. renewed-IsRow e now x _ i w hit) s.executions
      h
step-AllRows lib (Call.cancel i now later) s k h = elim (cancel_effect i now later s) [
  | inl same ↦ subst AllRows (sym same) h
  | inr (e, found, done) ↦ subst AllRows (sym done) (
      unfold cancel_update in
      All-update IsRow (has_id i) (cancellation now) (λ x hit y. cancellation-IsRow x now y)
        s.executions h)
]
step-AllRows lib (Call.enqueue_callback i url token now) s k h =
    elim (enqueue_effect i url token now s) [
      | inl same ↦ subst (AllRows) (sym same) h
      | inr written ↦ subst (AllRows) (sym written) (unfold Deliveries.enqueue_row in h)
    ]
step-AllRows lib (Call.claim_callback i w seconds now) s k h = unfold Deliveries.claim_callback in h
step-AllRows lib (Call.mark_callback_delivered i now) s k h =
    unfold Deliveries.mark_callback_delivered in h
step-AllRows lib (Call.mark_callback_delivered_by_owner i w now) s k h =
    unfold Deliveries.mark_callback_delivered_by_owner in h
step-AllRows lib (Call.mark_callback_failed i error w now) s k h =
    unfold Deliveries.mark_callback_failed in h
step-AllRows lib (Call.replay_callback i now) s k h =
    unfold Deliveries.replay_callback in
    subst (All IsRow) (sym (replay_row-executions (find_execution i s) i now s)) h

-- After any calls on a store with unique keys whose rows satisfy the row invariant, they satisfy it:
-- leases belong to running rows, a queued row has no requested cancellation, and before the end there
-- is no score, no metrics, no scores, no winner, no artifacts and no failure reason.
pub run-AllRows :
    (lib : Platform) (cs : List Call) (s : JudgeStore)
    → IsKeyed s
    → AllRows s
    → AllRows (run lib cs s)
unfolding run
run-AllRows lib [] s k h = h
run-AllRows lib (c ∷ cs) s k h =
    run-AllRows lib cs (step lib c s) (step-IsKeyed lib c s k) (step-AllRows lib c s k h)
