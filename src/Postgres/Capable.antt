-- ===== src/Postgres/Capable.antt =====
-- Where every `required_capabilities` is absent, null or a list of texts, both stores read it alike.
pub mod Steps
use brunost_judge.Prelude.{
  ℕ, String, ◌≡◌, refl, sym, ap, ◌∙◌, subst, inl, inr, Bool, true, false, Option, none, some, List,
  [], ◌∷◌, ◌++◌, ◌&&◌, All, All-append, contains, Bool-cases, ==→eq, Option-cases, arith, ◌==◌,
  if◌then◌else◌,
}
use brunost_judge.Prelude.Int.{ℤ}
use brunost_judge.Json.{
  Json, null, str, arr, nil, cons, Items, Fields, end, field, get, get_or_null, put, item_list,
  truthy, num, int, or_else,
}
use brunost_judge.Conformance.{hashable}
use brunost_judge.Contracts.{ExecutionRequest}
use brunost_judge.Sql.{first_where, insert_by, order_by}
use brunost_judge.Sql.Order.{text_leb}
use brunost_judge.Sql.Update.{All-first, first-satisfies}
use brunost_judge.Sql.Texts.{contains-order}
use brunost_judge.Store.{ok, TaskRow, Execution, JudgeStore}
use brunost_judge.Store.Submit.{has_task_ref, submitted_metadata, event_id_of}
use brunost_judge.Store.Credentials.{distinct}
use brunost_judge.Store.Claim.{
  all_available, all_hashable, iterate, capability_items, is_compatible, manifest_of,
}
use brunost_judge.Postgres.Claim.{array_items, has_capabilities}

unfoldable pub all_texts : Items → Bool
all_texts nil = true
all_texts (cons (str s) xs) = all_texts xs
all_texts (cons _ xs) = false

unfoldable pub is_text_list : Json → Bool
unfolding all_texts
is_text_list null = true
is_text_list (arr xs) = all_texts xs
is_text_list _ = false

abbrev pub requires_texts : Fields → Bool
requires_texts m = is_text_list (get_or_null "required_capabilities" m)

-- the tables hold such requirements only
pub record IsCapable (s : JudgeStore) : Type 0 where
  pub tasks : All (λ (t : TaskRow). requires_texts t.manifest ≡ true) s.tasks
  pub executions : All (λ (e : Execution). requires_texts e.metadata ≡ true) s.executions

texts_hashable : (xs : Items) → all_texts xs ≡ true → all_hashable (item_list xs) ≡ true
unfolding all_texts all_hashable item_list hashable
texts_hashable nil h = refl
texts_hashable (cons (str s) xs) h = texts_hashable xs h
texts_hashable (cons _ xs) h = absurd (cc)

pub capability_items-eq-array_items :
    (v : Json) → is_text_list v ≡ true → capability_items v ≡ ok (array_items v)
unfolding is_text_list capability_items iterate array_items truthy item_list
capability_items-eq-array_items null h = refl
capability_items-eq-array_items (arr nil) h = refl
capability_items-eq-array_items (arr (cons x xs)) h = rw (texts_hashable (cons x xs) h) refl
capability_items-eq-array_items _ h = absurd (cc)

contains-distinct : (x : String) (ys : List String) → contains x (distinct ys) ≡ contains x ys
unfolding distinct contains
contains-distinct x [] = refl
contains-distinct x (y ∷ ys) = elim (Bool-cases (x == y)) [
  | inl same ↦ elim (Bool-cases (contains y (distinct ys))) [
    | inl seen ↦ rw (seen, same) (ap (λ z. contains z (distinct ys)) (==→eq x y same) ∙ seen)
    | inr first ↦ rw (first, same) refl
  ]
  | inr other ↦ ground (arith, contains-distinct x ys)
]

available_same :
    (xs ys : List String)
    → ((x : String) → contains x xs ≡ contains x ys)
    → (js : List Json) → all_available xs js ≡ all_available ys js
unfolding all_available
available_same xs ys same [] = refl
available_same xs ys same (str c ∷ js) = rw (same c, available_same xs ys same js)
available_same xs ys same (_ ∷ js) = refl

pub distinct_available :
    (capabilities : List String) (js : List Json)
    → all_available (order_by text_leb (distinct capabilities)) js ≡ all_available capabilities js
distinct_available capabilities =
    available_same (order_by text_leb (distinct capabilities)) capabilities
      λ x. contains-order text_leb x (distinct capabilities) ∙ contains-distinct x capabilities

-- the requirements of the task of a row
pub manifest_requires_texts :
    (t : String) (s : JudgeStore)
    → IsCapable s
    → requires_texts (manifest_of (first_where (has_task_ref t) s.tasks)) ≡ true
unfolding manifest_of is_text_list get_or_null get
manifest_requires_texts t s h = elim (Option-cases (first_where (has_task_ref t) s.tasks)) [
  | inl missing ↦ rw missing refl
  | inr (row, found) ↦ rw found (
      All-first (λ (x : TaskRow). requires_texts x.manifest ≡ true) (has_task_ref t) s.tasks row
        h.tasks found)
]

-- On such a table the two capability tests agree, and the test of `store.py` does not raise.
pub is_compatible-eq-has_capabilities :
    (capabilities : List String) (s : JudgeStore) (e : Execution)
    → IsCapable s
    → requires_texts e.metadata ≡ true
    → is_compatible capabilities s e ≡ ok (has_capabilities capabilities s e)
unfolding is_compatible has_capabilities
is_compatible-eq-has_capabilities capabilities s e h own =
    rw
      (
        capability_items-eq-array_items _ (manifest_requires_texts e.task_ref s h),
        capability_items-eq-array_items _ own,
        distinct_available,
      )
      refl

put_other : (k j : String) (v : Json) (m : Fields) → (j == k) ≡ false → get k (put j v m) ≡ get k m
unfolding get put
put_other k j v end h = rw h refl
put_other k j v (field l w m) h = elim (Bool-cases (l == j)) [
  | inl same ↦ let other : (l == k) ≡ false = ap (λ z. z == k) (==→eq l j same) ∙ h in ground arith
  | inr differs ↦ ground (arith, put_other k j v m h)
]

put_keeps :
    (j : String) (v : Json) (m : Fields)
    → (j == "required_capabilities") ≡ false
    → requires_texts m ≡ true
    → requires_texts (put j v m) ≡ true
unfolding get_or_null
put_keeps j v m other h =
    ap (λ o. is_text_list (elim o [ none ↦ null | some w ↦ w ]))
      (put_other "required_capabilities" j v m other)
    ∙ h

-- what `submit` adds to the metadata is not a requirement
pub submitted_metadata-requires_texts :
    (i : String) (manifest : Fields) (r : ExecutionRequest)
    → requires_texts r.metadata ≡ true
    → requires_texts (submitted_metadata i manifest r) ≡ true
unfolding submitted_metadata
submitted_metadata-requires_texts i manifest r h =
    let image_value =
      or_else (get_or_null "runtime_image" manifest) (get_or_null "runtime" manifest) in
    let digest = put "task_digest" (get_or_null "digest" manifest) r.metadata in
    let evaluator = put "evaluator" (get_or_null "evaluator" manifest) digest in
    let image = put "runtime_image" image_value evaluator in
    let event = put "event_id" (str (event_id_of i)) image in
    let kept : requires_texts event ≡ true = put_keeps "event_id" (str (event_id_of i)) image refl (
      put_keeps "runtime_image" image_value evaluator refl (
        put_keeps "evaluator" (get_or_null "evaluator" manifest) digest refl
          (put_keeps "task_digest" (get_or_null "digest" manifest) r.metadata refl h))) in
    elim (Option-cases r.timeout_seconds) [
      | inl unlimited ↦ rw unlimited kept
      | inr (n, limited) ↦ rw limited (put_keeps "timeout_seconds" (num (int n)) event refl kept)
    ]
