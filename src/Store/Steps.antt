-- ===== src/Store/Steps.antt =====
-- The calls of the store that change executions or deliveries, each as one step, and histories of
-- such calls. A call that raises leaves the store as it was.
pub mod Effects
use brunost_judge.Prelude.{ℕ, String, Option, List, [], ◌∷◌}
use brunost_judge.Platform.{Platform}
use brunost_judge.Contracts.{ExecutionRequest, ExecutionResult}
use brunost_judge.Store.{Result, ok, err, JudgeStore}
use brunost_judge.Store.Submit
use brunost_judge.Store.Claim
use brunost_judge.Store.Finish
use brunost_judge.Store.Deliveries

pub data Call : Type 0 where
  submit : String → ℕ → ExecutionRequest → Call
  claim_next : String → List String → List String → List String → ℕ → ℕ → Call
  finish : String → ExecutionResult → String → ℕ → ℕ → Call
  renew_lease : String → String → ℕ → ℕ → Call
  cancel : String → ℕ → ℕ → Call
  enqueue_callback : String → String → Option String → ℕ → Call
  claim_callback : String → String → ℕ → ℕ → Call
  mark_callback_delivered : String → ℕ → Call
  mark_callback_delivered_by_owner : String → String → ℕ → Call
  mark_callback_failed : String → String → Option String → ℕ → Call
  replay_callback : String → ℕ → Call

-- the store after a method that may raise
abbrev pub store_after {ℓ} : {A : Type ℓ} → JudgeStore → Result (A × JudgeStore) → JudgeStore
store_after s (ok (a, s')) = s'
store_after s (err e) = s

unfoldable pub step : Platform → Call → JudgeStore → JudgeStore
step lib (submit i now r) s = store_after s (Submit.submit lib i now r s)
step lib (claim_next w queues classes capabilities seconds now) s =
    store_after s (Claim.claim_next w queues classes capabilities seconds now s)
step lib (finish i r w now later) s = store_after s (Finish.finish lib i r w now later s)
step lib (renew_lease i w seconds now) s = (Finish.renew_lease i w seconds now s).1
step lib (cancel i now later) s = (Finish.cancel i now later s).1
step lib (enqueue_callback i url token now) s =
    store_after s (Deliveries.enqueue_callback i url token now s)
step lib (claim_callback i w seconds now) s = (Deliveries.claim_callback i w seconds now s).1
step lib (mark_callback_delivered i now) s = Deliveries.mark_callback_delivered i now s
step lib (mark_callback_delivered_by_owner i w now) s =
    (Deliveries.mark_callback_delivered_by_owner i w now s).1
step lib (mark_callback_failed i error w now) s =
    (Deliveries.mark_callback_failed i error w now s).1
step lib (replay_callback i now) s = (Deliveries.replay_callback i now s).1

unfoldable pub run : Platform → List Call → JudgeStore → JudgeStore
unfolding step
run lib [] s = s
run lib (c ∷ cs) s = run lib cs (step lib c s)
