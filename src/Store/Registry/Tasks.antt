-- ===== src/Store/Registry/Tasks.antt =====
-- The registry of tasks never changes what a reference means.
use brunost_judge.Prelude.{
  ℕ, String, ◌≡◌, refl, ◌∙◌, ◌⊎◌, inl, inr, true, Bool-cases, Option-cases, none, some, [], ◌∷◌,
  arith, ◌==◌, eq_refl, ==→eq, if◌then◌else◌,
}
use brunost_judge.Json.{obj, json_eq}
use brunost_judge.Contracts.{TaskRecord}
use brunost_judge.Sql.{first_where}
use brunost_judge.Sql.Update.{first-append}
use brunost_judge.Store.{ok, TaskRow, JudgeStore}
use brunost_judge.Store.Submit.{has_task_ref}
use brunost_judge.Store.Registry.{
  register_task, get_task, insert_task, task_of, task_row, same_task,
}
use brunost_judge.Store.Steps.{store_after}

found_after_insert :
    (now : ℕ) (t : TaskRecord) (r : String) (s : JudgeStore)
    → first_where (has_task_ref r) (insert_task now t s).tasks
      ≡ elim (first_where (has_task_ref r) s.tasks) [
        | none ↦ if t.task_ref == r then some (task_row now t) else none
        | some row ↦ some row
      ]
unfolding insert_task first_where task_row
found_after_insert now t r s = first-append (has_task_ref r) s.tasks (task_row now t ∷ [])

-- A registered task is returned unchanged after any further registration, whether that registers,
-- repeats or is refused.
pub registered_task_is_kept :
    (now : ℕ) (t kept : TaskRecord) (r : String) (s : JudgeStore)
    → get_task r s ≡ some kept
    → get_task r (store_after s (register_task now t s)) ≡ some kept
unfolding get_task register_task
registered_task_is_kept now t kept r s known = ground (arith, found_after_insert now t r s)

get_found :
    (r : String) (row : TaskRow) (s : JudgeStore)
    → first_where (has_task_ref r) s.tasks ≡ some row
    → get_task r s ≡ some (task_of row)
unfolding get_task
get_found r row s found = rw (found, get_task)

-- `f` is the task `t`, up to the equality of JSON values
abbrev pub AgreesWith : TaskRecord → TaskRecord → Type 0
AgreesWith t f =
    (f.path ≡ t.path)
    × (f.kind ≡ t.kind)
    × ((f.manifest ≡ t.manifest) ⊎ (json_eq (obj f.manifest) (obj t.manifest) ≡ true))

same_task-AgreesWith :
    (row : TaskRow) (t : TaskRecord) → same_task row t ≡ true → AgreesWith t (task_of row)
unfolding same_task task_of
same_task-AgreesWith row t h =
    (==→eq row.path t.path (ground arith), ==→eq row.kind t.kind (ground arith), inr (ground arith))

-- After a registration that is not refused, its reference gives a task with the path and the kind
-- that were registered, and its manifest is the registered one or equal to it as a JSON value.
pub registration_is_found :
    (now : ℕ) (t u : TaskRecord) (s s' : JudgeStore)
    → register_task now t s ≡ ok (u, s')
    → (f : TaskRecord) × (get_task t.task_ref s' ≡ some f) × AgreesWith t f
unfolding register_task
registration_is_found now t u s s' h =
    elim (Option-cases (first_where (has_task_ref t.task_ref) s.tasks)) [
      | inl new ↦
          let same : s' ≡ insert_task now t s = ground arith in
          (
            task_of (task_row now t),
            rw same (
                get_found t.task_ref (task_row now t) (insert_task now t s)
                  (found_after_insert now t t.task_ref s ∙ rw (new, eq_refl t.task_ref))),
            unfold task_of in unfold task_row in (refl, refl, inl refl),
          )
      | inr (row, found) ↦ elim (Bool-cases (same_task row t)) [
        | inl equal ↦
            let same : s' ≡ s = ground arith in
            (
              task_of row,
              rw same (get_found t.task_ref row s found),
              same_task-AgreesWith row t equal,
            )
        | inr other ↦ absurd (ground arith)
      ]
    ]
