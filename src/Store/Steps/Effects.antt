-- ===== src/Store/Steps/Effects.antt =====
-- What each call can do to the store: nothing, or one change of a known shape. The invariants argue
-- from these cases alone.
use brunost_judge.Prelude.{
  ℕ, suc, String, ◌≡◌, refl, sym, ◌∙◌, ap, ◌⊎◌, inl, inr, true, false, Bool-cases, Option-cases,
  Option, none, some, List, [], ◌∷◌, ◌++◌, length, arith,
}
use brunost_judge.Platform.{Platform}
use brunost_judge.Contracts.{ExecutionRequest, ExecutionResult, is_terminal}
use brunost_judge.Text.{is_blank}
use brunost_judge.Sql.{first_where, exists_where}
use brunost_judge.Sql.Update.{exists-first}
use brunost_judge.Store.{
  Error, Result, ok, err, TaskRow, Execution, JudgeStore, has_id, find_execution,
}
use brunost_judge.Store.Submit.{
  submit, has_key, has_task_ref, submitted_row, request_fingerprint, new_submission,
  insert_execution, replay_submission,
}
use brunost_judge.Store.Claim.{
  claim_next, expire_leases, lease_row, scan_pages, is_compatible, candidates,
}
use brunost_judge.Store.Deliveries.{enqueue_callback, enqueue_row}
use brunost_judge.Store.Finish.{
  finish, finish_update, finish_found, commit_finish, validate_finish_result, stored_result, cancel,
  cancel_update,
}
use brunost_judge.Store.Steps.{store_after}

-- `submit` appends one row, whose identifier and idempotency key are new.
pub record Submitted (lib : Platform) (i : String) (now : ℕ) (r : ExecutionRequest)
    (s s' : JudgeStore) : Type 0 where
  pub task : TaskRow
  pub new_id : exists_where (has_id i) s.executions ≡ false
  pub new_key : exists_where (has_key r.idempotency_key) s.executions ≡ false
  pub after : s' ≡ record s {
    executions =
        s.executions ++ submitted_row i now (request_fingerprint lib r) task.manifest r ∷ [];
  }

pub submit_effect :
    (lib : Platform) (i : String) (now : ℕ) (r : ExecutionRequest) (s : JudgeStore)
    → let s' = store_after s (submit lib i now r s) in (s' ≡ s) ⊎ Submitted lib i now r s s'
unfolding submit new_submission insert_execution replay_submission submitted_row
submit_effect lib i now r s = elim (Option-cases (first_where (has_task_ref r.task_ref) s.tasks)) [
  | inl missing ↦ inl (ground arith)
  | inr (task, et) ↦ elim (Option-cases (first_where (has_key r.idempotency_key) s.executions)) [
    | inr (old, eo) ↦ inl (ground arith)
    | inl new ↦ elim (Bool-cases (exists_where (has_id i) s.executions)) [
      | inl taken ↦ inl (ground arith)
      | inr free ↦ inr (record {
        task = task;
        new_id = free;
        new_key = ground (arith, exists-first (has_key r.idempotency_key) s.executions);
        after = ground arith;
      })
    ]
  ]
]

-- `claim_next` releases the expired leases, and leases the row that the scan found, if any.
pub record Claimed (w : String) (queues classes capabilities : List String) (seconds now : ℕ)
    (s s' : JudgeStore) : Type 0 where
  pub row : Option Execution
  pub found :
      scan_pages
        (suc (length (candidates queues classes (expire_leases now s))))
        (is_compatible capabilities (expire_leases now s))
        (candidates queues classes (expire_leases now s))
        0
      ≡ ok row
  pub after : s' ≡ (lease_row w seconds now (expire_leases now s) row).1

pub claim_effect :
    (w : String) (queues classes capabilities : List String) (seconds now : ℕ) (s : JudgeStore)
    → let s' = store_after s (claim_next w queues classes capabilities seconds now s) in
      (s' ≡ s) ⊎ Claimed w queues classes capabilities seconds now s s'
unfolding claim_next
claim_effect w queues classes capabilities seconds now s =
    go
      (scan_pages (suc (length (candidates queues classes (expire_leases now s))))
        (is_compatible capabilities (expire_leases now s))
        (candidates queues classes (expire_leases now s)) 0)
      refl
  where
    go :
        (r : Result (Option Execution))
        → scan_pages
            (suc (length (candidates queues classes (expire_leases now s))))
            (is_compatible capabilities (expire_leases now s))
            (candidates queues classes (expire_leases now s))
            0
          ≡ r
        → let s' = store_after s (claim_next w queues classes capabilities seconds now s) in
          (s' ≡ s) ⊎ Claimed w queues classes capabilities seconds now s s'
    go (err e) h = inl (rw h)
    go (ok row) h = inr (record { row = row; found = h; after = rw h })

pub Result-cases :
    {A : Type 0} (r : Result A) → ((e : Error) × (r ≡ err e)) ⊎ ((a : A) × (r ≡ ok a))
Result-cases (err e) = inl (e, refl)
Result-cases (ok a) = inr (a, refl)

module _ (lib : Platform) (i : String) (r : ExecutionResult) (w : String) (now later : ℕ)
    (s : JudgeStore) where
  finish_found_effect :
      (o : Option Execution)
      → let s' = store_after s (finish_found lib i r w now later s o) in
        (s' ≡ s)
        ⊎ ((stored : ExecutionResult) × (stored_result lib r ≡ ok stored)
            × (s' ≡ finish_update i stored w now later s))
  unfolding finish_found commit_finish
  finish_found_effect none = inl refl
  finish_found_effect (some e) = elim (Result-cases (validate_finish_result lib i e.task_ref r)) [
    | inl (x, bad) ↦ inl (ground arith)
    | inr (u, good) ↦ elim (Result-cases (stored_result lib r)) [
      | inl (x, large) ↦ inl (ground arith)
      | inr (stored, fits) ↦ inr (stored, fits, ground arith)
    ]
  ]

  -- the column changes the score alone
  pub stored_result-status :
      (stored : ExecutionResult) → stored_result lib r ≡ ok stored → stored.status ≡ r.status
  unfolding stored_result
  stored_result-status stored h = elim (Option-cases (lib.real r.score)) [
    | inl large ↦ absurd (ground (arith, large, h))
    | inr (score, fits) ↦
        let same : record r { score = score } ≡ stored = ground (arith, fits, h) in
        sym (ap (λ (x : ExecutionResult). x.status) same)
  ]

  pub finish-eq-finish_found :
      is_blank w ≡ false
      → is_terminal r.status ≡ true
      → finish lib i r w now later s ≡ finish_found lib i r w now later s (find_execution i s)
  unfolding finish
  finish-eq-finish_found named terminal = rw (named, terminal)

  -- `finish` writes only a terminal result.
  pub finish_effect :
      let s' = store_after s (finish lib i r w now later s) in
      (s' ≡ s)
      ⊎ ((stored : ExecutionResult) × (is_terminal stored.status ≡ true)
          × (s' ≡ finish_update i stored w now later s))
  unfolding finish
  finish_effect = elim (Bool-cases (is_blank w)) [
    | inl blank ↦ inl (ground arith)
    | inr named ↦ elim (Bool-cases (is_terminal r.status)) [
      | inr unfinished ↦ inl (ground arith)
      | inl terminal ↦ elim (finish_found_effect (find_execution i s)) [
        | inl same ↦ inl (ap (store_after s) (finish-eq-finish_found named terminal) ∙ same)
        | inr (stored, fits, written) ↦ inr (
          stored,
          ap is_terminal (stored_result-status stored fits) ∙ terminal,
          ap (store_after s) (finish-eq-finish_found named terminal) ∙ written,
        )
      ]
    ]
  ]

pub cancel_effect :
    (i : String) (now later : ℕ) (s : JudgeStore)
    → ((cancel i now later s).1 ≡ s)
      ⊎ ((e : Execution) × (find_execution i s ≡ some e)
          × ((cancel i now later s).1 ≡ cancel_update i now later s e))
unfolding cancel
cancel_effect i now later s = elim (Option-cases (find_execution i s)) [
  | inl missing ↦ inl (rw missing)
  | inr (e, found) ↦ inr (e, found, rw found)
]

pub enqueue_effect :
    (i url : String) (token : Option String) (now : ℕ) (s : JudgeStore)
    → let s' = store_after s (enqueue_callback i url token now s) in
      (s' ≡ s) ⊎ (s' ≡ enqueue_row i url token now s)
unfolding enqueue_callback
enqueue_effect i url token now s = ground arith
