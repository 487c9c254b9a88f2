-- ===== src/Store/Finish/Published.antt =====
-- What `finish` publishes has passed the checks of a result payload.
use brunost_judge.Prelude.{
  ℕ, String, ◌≡◌, refl, sym, ◌∙◌, inl, inr, true, Bool-cases, Option, none, some, List, [], ◌∷◌,
  arith, ==→eq,
}
use brunost_judge.Platform.{Platform}
use brunost_judge.Contracts.{ExecutionResult, is_terminal, as_dict}
use brunost_judge.Text.{is_blank}
use brunost_judge.Conformance.{validate_result_payload}
use brunost_judge.Conformance.Accepted.Shape.{IsResult}
use brunost_judge.Conformance.Accepted.{accepted-IsResult}
use brunost_judge.Store.{ok, Execution, JudgeStore, find_execution}
use brunost_judge.Store.Finish.{finish, finish_found, validate_finish_result, unless_errors}
use brunost_judge.Store.Steps.Effects.{Result-cases, finish-eq-finish_found}

unless_errors-ok : (o : Option (List String)) → unless_errors o ≡ ok tt → o ≡ some []
unfolding unless_errors
unless_errors-ok none h = absurd (cc h)
unless_errors-ok (some []) h = refl
unless_errors-ok (some (e ∷ es)) h = absurd (cc h)

-- the report names an execution that is in the table, and the task of that execution
pub record NamesExecution (i : String) (r : ExecutionResult) (s : JudgeStore) : Type 0 where
  pub row : Execution
  pub found : find_execution i s ≡ some row
  pub execution : r.execution_id ≡ i
  pub task : r.task_ref ≡ row.task_ref

checked :
    (lib : Platform) (i t : String) (r : ExecutionResult)
    → validate_finish_result lib i t r ≡ ok tt
    → (r.execution_id ≡ i) × (r.task_ref ≡ t) × IsResult lib (as_dict r)
unfolding validate_finish_result
checked lib i t r h = (
  ==→eq r.execution_id i (ground arith),
  ==→eq r.task_ref t (ground arith),
  accepted-IsResult lib (as_dict r)
      (unless_errors-ok (validate_result_payload lib (as_dict r)) (ground arith)),
)

module _ (lib : Platform) (i w : String) (r x : ExecutionResult) (now later : ℕ)
    (s s' : JudgeStore) where
  found_published :
      (o : Option Execution)
      → find_execution i s ≡ o
      → finish_found lib i r w now later s o ≡ ok (some x, s')
      → NamesExecution i r s × IsResult lib (as_dict r)
  unfolding finish_found
  found_published none found h = absurd (ground arith)
  found_published (some e) found h =
      elim (Result-cases (validate_finish_result lib i e.task_ref r)) [
        | inl (raised, bad) ↦ absurd (ground arith)
        | inr (tt, good) ↦
            let (same, task, valid) = checked lib i e.task_ref r good in
            (record { row = e; found = found; execution = same; task = task }, valid)
      ]

  -- If `finish` returns a result, then what the worker reported was terminal, named an execution of the
  -- table and the task of that execution, and had a finite score or none, metrics of finite JSON values
  -- of at most a million bytes, at most 64 scores and 32 artifacts, each with a name of at most 200
  -- characters and a finite number or an artifact identifier, a named winner or none, a failure reason
  -- of at most 2000 characters or none, and the version 1 or none.
  pub published-IsResult :
      finish lib i r w now later s ≡ ok (some x, s')
      → (is_terminal r.status ≡ true) × NamesExecution i r s × IsResult lib (as_dict r)
  unfolding finish
  published-IsResult h = elim (Bool-cases (is_blank w)) [
    | inl blank ↦ absurd (ground arith)
    | inr named ↦ elim (Bool-cases (is_terminal r.status)) [
      | inr unfinished ↦ absurd (ground arith)
      | inl terminal ↦
          let (names, valid) =
            found_published (find_execution i s) refl
              (sym (finish-eq-finish_found lib i r w now later s named terminal) ∙ h) in
          (terminal, names, valid)
    ]
  ]
