-- ===== src/Store/Idempotency.antt =====
-- Idempotent submission: a retry finds the execution that was created, a different request under the
-- same key is refused.
use brunost_judge.Prelude.{
  ℕ, String, ◌≡◌, ◌≢◌, refl, sym, ap, ◌∙◌, inl, inr, Bool-cases, Option, none, some, List, [], ◌∷◌,
  arith, ◌==◌, eq_refl, eq_iff,
}
use brunost_judge.Platform.{Platform}
use brunost_judge.Contracts.{ExecutionRequest, ExecutionResult}
use brunost_judge.Sql.{first_where}
use brunost_judge.Store.{
  ok, err, idempotency_conflict, Execution, TaskRow, JudgeStore, find_execution,
}
use brunost_judge.Store.Submit.{
  submit, has_key, has_task_ref, replay_submission, result_of, request_fingerprint,
}
use brunost_judge.Store.Claim
use brunost_judge.Store.Finish
use brunost_judge.Store.Deliveries
use brunost_judge.Store.Keys.{IsKeyed}
use brunost_judge.Store.Steps.{Call, step, run}
use brunost_judge.Store.Steps.Effects.{
  enqueue_effect, submit_effect, claim_effect, finish_effect, cancel_effect,
}
use brunost_judge.Store.Lifecycle.{SameRequest, Evolves}
use brunost_judge.Store.Lifecycle.History.{Extends-find, run-Extends}

replay_row-tasks :
    (o : Option Execution) (i : String) (now : ℕ) (s : JudgeStore)
    → (Deliveries.replay_row o i now s).1.tasks ≡ s.tasks
unfolding Deliveries.replay_row
replay_row-tasks o i now s = ground arith

lease_row-tasks :
    (w : String) (seconds now : ℕ) (s : JudgeStore) (row : Option Execution)
    → (Claim.lease_row w seconds now s row).1.tasks ≡ s.tasks
unfolding Claim.lease_row
lease_row-tasks w seconds now s none = refl
lease_row-tasks w seconds now s (some row) = refl

pub expire_leases-tasks : (now : ℕ) (s : JudgeStore) → (Claim.expire_leases now s).tasks ≡ s.tasks
unfolding Claim.expire_leases
expire_leases-tasks now s = refl

finish_update-tasks :
    (i : String) (r : ExecutionResult) (w : String) (now later : ℕ) (s : JudgeStore)
    → (Finish.finish_update i r w now later s).tasks ≡ s.tasks
unfolding Finish.finish_update
finish_update-tasks i r w now later s = refl

cancel_update-tasks :
    (i : String) (now later : ℕ) (s : JudgeStore) (e : Execution)
    → (Finish.cancel_update i now later s e).tasks ≡ s.tasks
unfolding Finish.cancel_update
cancel_update-tasks i now later s e = refl

abbrev tasks_of : JudgeStore → List TaskRow
tasks_of s = s.tasks

pub step-tasks : (lib : Platform) (c : Call) (s : JudgeStore) → (step lib c s).tasks ≡ s.tasks
unfolding step
step-tasks lib (Call.submit i now r) s = elim (submit_effect lib i now r s) [
  | inl same ↦ ap tasks_of same
  | inr sub ↦ ap tasks_of sub.after
]
step-tasks lib (Call.claim_next w queues classes capabilities seconds now) s =
    elim (claim_effect w queues classes capabilities seconds now s) [
      | inl same ↦ ap tasks_of same
      | inr c ↦
          ap tasks_of c.after
          ∙ lease_row-tasks w seconds now (Claim.expire_leases now s) c.row
          ∙ expire_leases-tasks now s
    ]
step-tasks lib (Call.finish i r w now later) s = elim (finish_effect lib i r w now later s) [
  | inl same ↦ ap tasks_of same
  | inr (stored, t, written) ↦ ap tasks_of written ∙ finish_update-tasks i stored w now later s
]
step-tasks lib (Call.renew_lease i w seconds now) s = unfold Finish.renew_lease in refl
step-tasks lib (Call.cancel i now later) s = elim (cancel_effect i now later s) [
  | inl same ↦ ap tasks_of same
  | inr (e, found, done) ↦ ap tasks_of done ∙ cancel_update-tasks i now later s e
]
step-tasks lib (Call.enqueue_callback i url token now) s = elim (enqueue_effect i url token now s) [
  | inl same ↦ ap tasks_of same
  | inr written ↦ ap tasks_of written ∙ (unfold Deliveries.enqueue_row in refl)
]
step-tasks lib (Call.claim_callback i w seconds now) s = unfold Deliveries.claim_callback in refl
step-tasks lib (Call.mark_callback_delivered i now) s =
    unfold Deliveries.mark_callback_delivered in refl
step-tasks lib (Call.mark_callback_delivered_by_owner i w now) s =
    unfold Deliveries.mark_callback_delivered_by_owner in refl
step-tasks lib (Call.mark_callback_failed i error w now) s =
    unfold Deliveries.mark_callback_failed in refl
step-tasks lib (Call.replay_callback i now) s =
    unfold Deliveries.replay_callback in replay_row-tasks (find_execution i s) i now s

run-tasks : (lib : Platform) (cs : List Call) (s : JudgeStore) → (run lib cs s).tasks ≡ s.tasks
unfolding run
run-tasks lib [] s = refl
run-tasks lib (c ∷ cs) s = run-tasks lib cs (step lib c s) ∙ step-tasks lib c s

has_key_column : (k : String) (e f : Execution) → SameRequest e f → has_key k f ≡ has_key k e
has_key_column k e f h = rw h.idempotency_key

-- the branch of `submit` on a key that is there
submit_known :
    (lib : Platform) (i : String) (now : ℕ) (r : ExecutionRequest) (s : JudgeStore) (t : TaskRow)
    (e : Execution)
    → first_where (has_task_ref r.task_ref) s.tasks ≡ some t
    → first_where (has_key r.idempotency_key) s.executions ≡ some e
    → submit lib i now r s ≡ replay_submission (request_fingerprint lib r) e s
unfolding submit
submit_known lib i now r s t e known found = ground arith

replay_same :
    (fingerprint : String) (f : Execution) (s : JudgeStore)
    → f.request_fingerprint ≡ fingerprint
    → replay_submission fingerprint f s ≡ ok (some (result_of f), s)
unfolding replay_submission
replay_same fingerprint f s same = rw same (elim (Bool-cases (fingerprint == "")) [
  | inl empty ↦ rw empty
  | inr given ↦ rw (given, eq_refl)
])

replay_other :
    (fingerprint : String) (f : Execution) (s : JudgeStore)
    → f.request_fingerprint ≢ ""
    → f.request_fingerprint ≢ fingerprint
    → replay_submission fingerprint f s ≡ err idempotency_conflict
unfolding replay_submission
replay_other fingerprint f s given differs =
    ground (arith, eq_iff f.request_fingerprint "", eq_iff f.request_fingerprint fingerprint)

module _ (lib : Platform) (s : JudgeStore) (e : Execution) (t : TaskRow) (r : ExecutionRequest)
    (cs : List Call) (k : IsKeyed s)
    (known : first_where (has_task_ref r.task_ref) s.tasks ≡ some t)
    (found : first_where (has_key r.idempotency_key) s.executions ≡ some e) where
  -- A retry of the request that created an execution, after any calls in between, returns that
  -- execution and leaves the store as it is.
  pub retry_is_idempotent :
      (j : String) (now : ℕ)
      → e.request_fingerprint ≡ request_fingerprint lib r
      → (f : Execution) × Evolves e f
        × (submit lib j now r (run lib cs s) ≡ ok (some (result_of f), run lib cs s))
  retry_is_idempotent j now same =
      let (f, found', moved) =
        Extends-find (has_key r.idempotency_key) (has_key_column r.idempotency_key) _ _ e
          (run-Extends lib cs s k) found in
      (
        f,
        moved,
        submit_known lib j now r (run lib cs s) t f (rw run-tasks known) found'
            ∙ replay_same (request_fingerprint lib r) f (run lib cs s)
                (moved.request.request_fingerprint ∙ same),
      )

  -- A request with another fingerprint under that key is refused, after any calls in between; rows of
  -- an old database, which have no fingerprint, are the exception.
  pub other_request_conflicts :
      (j : String) (now : ℕ)
      → e.request_fingerprint ≢ ""
      → e.request_fingerprint ≢ request_fingerprint lib r
      → submit lib j now r (run lib cs s) ≡ err idempotency_conflict
  other_request_conflicts j now given differs =
      let (f, found', moved) =
        Extends-find (has_key r.idempotency_key) (has_key_column r.idempotency_key) _ _ e
          (run-Extends lib cs s k) found in
      let kept : f.request_fingerprint ≡ e.request_fingerprint =
        moved.request.request_fingerprint in
      submit_known lib j now r (run lib cs s) t f (rw run-tasks known) found'
      ∙ replay_other (request_fingerprint lib r) f (run lib cs s) (λ x. given (sym kept ∙ x))
          (λ x. differs (sym kept ∙ x))
