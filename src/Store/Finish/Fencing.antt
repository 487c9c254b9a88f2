-- ===== src/Store/Finish/Fencing.antt =====
-- `finish` publishes the result of the worker that holds a live lease, and of no other.
use brunost_judge.Prelude.{
  ℕ, String, ◌≡◌, refl, sym, ap, ◌∙◌, inl, inr, Bool, true, false, Bool-cases, Option, Option-cases,
  none, some, arith, ==→eq, if◌then◌else◌,
}
use brunost_judge.Platform.{Platform}
use brunost_judge.Contracts.{ExecutionResult, is_terminal}
use brunost_judge.Text.{is_blank}
use brunost_judge.Sql.{rowcount}
use brunost_judge.Sql.Update.{first-update, first-satisfies, update-none}
use brunost_judge.Sql.Keys.{
  Occurs-determined, first-Occurs, rowcount_key, rowcount-pos, rowcount-none,
}
use brunost_judge.Store.{ok, err, overflow, Execution, JudgeStore, has_id, find_execution}
use brunost_judge.Store.Submit.{get_execution, result_of}
use brunost_judge.Store.Finish.{
  finish, finish_found, finish_update, commit_finish, validate_finish_result, stored_result,
  holds_lease, finished,
}
use brunost_judge.Store.Keys.{IsKeyed, execution_key}

module _ (i w : String) (now : ℕ) (s : JudgeStore) (e : Execution) (k : IsKeyed s)
    (found : find_execution i s ≡ some e) where
  id_of_found : e.execution_id ≡ i
  id_of_found = ==→eq _ _ (first-satisfies (has_id i) s.executions e found)

  -- another row cannot match the WHERE clause, which names the identifier
  rowcount_not_held :
      (p : Execution → Bool)
      → ((x : Execution) → p x ≡ true → x.execution_id ≡ i)
      → p e ≡ false
      → rowcount p s.executions ≡ 0
  rowcount_not_held p only miss = rowcount-none p s.executions λ x o. elim (Bool-cases (p x)) [
    | inr no_match ↦ no_match
    | inl match ↦
        let same : x ≡ e =
          Occurs-determined execution_key x e s.executions k.execution_ids o
            (first-Occurs (has_id i) s.executions e found) (only x match ∙ sym id_of_found) in
        ap p same ∙ miss
  ]

  rowcount_held :
      (p : Execution → Bool)
      → ((x : Execution) → p x ≡ true → x.execution_id ≡ i)
      → p e ≡ true
      → rowcount p s.executions ≡ 1
  rowcount_held p only hit = omega (
    arith,
    rowcount-pos p e s.executions (first-Occurs (has_id i) s.executions e found) hit,
    rowcount_key execution_key i p only s.executions k.execution_ids,
  )

  lease_names_id : (x : Execution) → holds_lease i w now x ≡ true → x.execution_id ≡ i
  lease_names_id x h = ==→eq x.execution_id i (ground arith)

  finish_found_row :
      (r : ExecutionResult) (later : ℕ)
      → find_execution i (finish_update i r w now later s)
        ≡ some (if holds_lease i w now e then finished r now e else e)
  unfolding finish_update
  finish_found_row r later =
      first-update (has_id i) (holds_lease i w now) (finished r now) (λ x. refl) s.executions
      ∙ rw found

  get_found :
      (f : Execution) (s' : JudgeStore)
      → find_execution i s' ≡ some f
      → get_execution i s' ≡ some (result_of f)
  unfolding get_execution
  get_found f s' h = rw (h, get_execution)

  commit_held :
      (r : ExecutionResult) (later : ℕ)
      → holds_lease i w now e ≡ true
      → commit_finish i r w now later s
        ≡ (some (result_of (finished r now e)), finish_update i r w now later s)
  unfolding commit_finish
  commit_held r later held = rw (
    rowcount_held (holds_lease i w now) lease_names_id held,
    get_found (finished r now e) (finish_update i r w now later s)
        (finish_found_row r later ∙ rw held),
  )

  nothing_written :
      (r : ExecutionResult) (later : ℕ)
      → holds_lease i w now e ≡ false
      → finish_update i r w now later s ≡ s
  unfolding finish_update
  nothing_written r later lost =
      let none_hit = rowcount_not_held (holds_lease i w now) lease_names_id lost in
      rw (none_hit, update-none (holds_lease i w now) (finished r now) s.executions none_hit)

  commit_lost :
      (r : ExecutionResult) (later : ℕ)
      → holds_lease i w now e ≡ false
      → commit_finish i r w now later s ≡ (none, s)
  unfolding commit_finish
  commit_lost r later lost =
      rw (rowcount_not_held (holds_lease i w now) lease_names_id lost, nothing_written r later lost)

  abbrev pub decided : ExecutionResult → ℕ → Option ExecutionResult × JudgeStore
  decided r later =
      if holds_lease i w now e
      then (some (result_of (finished r now e)), finish_update i r w now later s)
      else (none, s)

  commit-decided :
      (r : ExecutionResult) (later : ℕ) → commit_finish i r w now later s ≡ decided r later
  commit-decided r later = elim (Bool-cases (holds_lease i w now e)) [
    | inl held ↦ rw held (commit_held r later held)
    | inr lost ↦ rw lost (commit_lost r later lost)
  ]

  -- For a terminal result that passes the checks, `finish` raises if the column refuses the score.
  -- Otherwise it writes the outcome, with the score as its column gives it back, and returns it, if the
  -- named worker holds a live lease on the running execution; if not, it returns nothing, and the
  -- store stays as it is.
  pub finish_by_holder :
      (lib : Platform) (r : ExecutionResult) (later : ℕ)
      → is_blank w ≡ false
      → is_terminal r.status ≡ true
      → validate_finish_result lib i e.task_ref r ≡ ok tt
      → finish lib i r w now later s ≡ (elim (lib.real r.score) [
        | none ↦ err overflow
        | some score ↦ ok (decided (record r { score = score }) later)
      ])
  unfolding finish finish_found stored_result
  finish_by_holder lib r later named terminal valid = elim (Option-cases (lib.real r.score)) [
    | inl large ↦ rw (named, terminal, found, finish_found, valid, stored_result, large) refl
    | inr (score, fits) ↦
        rw (named, terminal, found, finish_found, valid, stored_result, fits)
          (ap ok (commit-decided (record r { score = score }) later))
  ]
