-- ===== src/Postgres/Refinement/Registry.antt =====
-- The registrations of tasks and definitions in the two stores agree.
use brunost_judge.Prelude.{
  ℕ, String, ◌≡◌, refl, inl, inr, true, none, some, [], ◌∷◌, ◌++◌, Option-cases, arith, eq_refl,
}
use brunost_judge.Json.{obj, Fields, json_eq}
use brunost_judge.Contracts.{TaskRecord}
use brunost_judge.Sql.{first_where}
use brunost_judge.Sql.Update.{exists-first, first-append}
use brunost_judge.Store.{JudgeStore, DefinitionRow}
use brunost_judge.Store.Submit.{has_task_ref}
use brunost_judge.Store.Registry
use brunost_judge.Store.Registry.{
  task_row, same_task, insert_task, is_definition, insert_definition,
}
use brunost_judge.Postgres.Columns.{Columns}
use brunost_judge.Postgres.Registry as Pg
use brunost_judge.Postgres.Registry.{
  definition_row, insert_task_once, compare_task, insert_definition_once, compare_definition,
}

module _ (cols : Columns) (now : ℕ) (t : TaskRecord) (s : JudgeStore)
    (kept : cols.task (task_row now t) ≡ some (task_row now t))
    (plain : json_eq (obj t.manifest) (obj t.manifest) ≡ true) where
  same_as_inserted : same_task (task_row now t) t ≡ true
  unfolding same_task task_row
  same_as_inserted = ground (arith, eq_refl t.path, eq_refl t.kind, plain)

  found_inserted :
      first_where (has_task_ref t.task_ref) s.tasks ≡ none
      → first_where (has_task_ref t.task_ref) (s.tasks ++ task_row now t ∷ [])
        ≡ some (task_row now t)
  unfolding first_where task_row
  found_inserted fresh = ground (
    arith,
    first-append (has_task_ref t.task_ref) s.tasks (task_row now t ∷ []),
    eq_refl t.task_ref,
  )

  -- A manifest that equals itself, and whose row comes back from PostgreSQL as it is, is registered
  -- alike in the two stores, whether the reference is new, repeated or taken.
  pub register_task-eq : Pg.register_task cols now t s ≡ Registry.register_task now t s
  unfolding Pg.register_task Registry.register_task insert_task_once compare_task insert_task
  register_task-eq = elim (Option-cases (first_where (has_task_ref t.task_ref) s.tasks)) [
    | inr (row, known) ↦ ground (arith, kept, exists-first (has_task_ref t.task_ref) s.tasks)
    | inl fresh ↦ ground (
      arith,
      kept,
      exists-first (has_task_ref t.task_ref) s.tasks,
      found_inserted fresh,
      same_as_inserted,
    )
  ]

module _ (cols : Columns) (now : ℕ) (kind i : String) (payload : Fields) (s : JudgeStore)
    (kept : cols.definition (definition_row now kind i payload)
      ≡ some (definition_row now kind i payload))
    (plain : json_eq (obj payload) (obj payload) ≡ true) where
  found_definition :
      (d : DefinitionRow)
      → d.definition_type ≡ kind
      → d.definition_id ≡ i
      → first_where (is_definition kind i) s.definitions ≡ none
      → first_where (is_definition kind i) (s.definitions ++ d ∷ []) ≡ some d
  unfolding first_where
  found_definition d same_kind same_id fresh =
      ground
        (arith, first-append (is_definition kind i) s.definitions (d ∷ []), eq_refl kind, eq_refl i)

  -- A payload that equals itself, and whose row comes back as it is, is registered alike in the two stores, whether the definition is
  -- new, repeated or another one.
  register_definition-eq :
      Pg.register_definition cols now kind i payload s
      ≡ Registry.register_definition now kind i payload s
  unfolding Pg.register_definition Registry.register_definition insert_definition_once
      compare_definition insert_definition
  register_definition-eq = elim (Option-cases (first_where (is_definition kind i) s.definitions)) [
    | inr (row, known) ↦ ground (arith, kept, exists-first (is_definition kind i) s.definitions)
    | inl fresh ↦
        let d : DefinitionRow = record {
          definition_type = kind;
          definition_id = i;
          payload = payload;
          created_at = now;
          updated_at = now;
        } in
        ground (
          arith,
          kept,
          exists-first (is_definition kind i) s.definitions,
          found_definition d refl refl fresh,
          plain,
        )
  ]
