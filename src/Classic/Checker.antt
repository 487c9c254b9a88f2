-- ===== src/Classic/Checker.antt =====
-- The tests of a task and the check of an output, `_test_cases` and `_check_output` of
-- src/grader/classic.py, on the contents of the files.
use brunost_judge.Prelude.{
  ℕ, ◌^◌, String, Bool, true, false, not, ◌&&◌, ◌||◌, Option, none, some, List, [], ◌∷◌, leb,
  nat_eq, ◌==◌, if◌then◌else◌,
}
use brunost_judge.Prelude.Int.{pos_part}
use brunost_judge.Json.{
  Num, int, float, inf, nan, Json, bool, str, Fields, get, get_or_null, truthy, or_else,
}
use brunost_judge.Conformance.{is_finite_number}
use brunost_judge.Classic.Words.{split_bytes}

abbrev pub compile_timeout_ms : ℕ
compile_timeout_ms = 30000

-- `TestCase`, with the contents of the answer file
pub record TestCase : Type 0 where
  pub test_id : String
  pub input : List ℕ
  pub answer : Option (List ℕ)

-- an input file of the task, with the `.ans` and the `.out` file beside it
pub record TestFiles : Type 0 where
  pub test_id : String
  pub input : List ℕ
  pub ans : Option (List ℕ)
  pub out : Option (List ℕ)

abbrev pub answer_file : TestFiles → Option (List ℕ)
answer_file f = elim f.ans [ some bytes ↦ some bytes | none ↦ f.out ]

abbrev pub has_answer : Option (List ℕ) → Bool
has_answer none = false
has_answer (some bytes) = true

abbrev pub case_of : TestFiles → TestCase
case_of f = record { test_id = f.test_id; input = f.input; answer = answer_file f }

abbrev pub lacks_answer : Bool → TestFiles → Bool
lacks_answer from_reference f = not (has_answer (answer_file f)) && not from_reference

-- the loop of `_test_cases`
unfoldable pub cases_of : Bool → List TestFiles → Option (List TestCase)
cases_of from_reference [] = some []
cases_of from_reference (f ∷ fs) =
    let rest = cases_of from_reference fs in
    if lacks_answer from_reference f
    then none
    else elim rest [ none ↦ none | some cases ↦ some (case_of f ∷ cases) ]

-- `if not cases: raise`
abbrev pub nonempty : Option (List TestCase) → Option (List TestCase)
nonempty none = none
nonempty (some []) = none
nonempty (some (c ∷ cs)) = some (c ∷ cs)

-- `_test_cases`, on the sorted files
unfoldable pub test_cases : Bool → List TestFiles → Option (List TestCase)
unfolding cases_of
test_cases from_reference files = nonempty (cases_of from_reference files)

-- what a checker does; `text` and `upper` are Python's `str` on a value and `upper` on a text
pub data CheckerResult : Type 0 where
  raised unsupported : CheckerResult
  flag : Bool → CheckerResult
  table : Fields → CheckerResult
  number : Num → CheckerResult

-- `checker.py`, or None
abbrev pub Checker : Type 0
Checker = Option (List ℕ → List ℕ → List ℕ → CheckerResult)

pub record Texts : Type 0 where
  pub text : Json → String
  pub upper : String → String

abbrev pub default_message : Bool → String
default_message accepted = if accepted then "" else "wrong answer"

abbrev pub by_flag : Bool → Option (Bool × String)
by_flag accepted = some (accepted, default_message accepted)

-- `raw.get(key, default)`
abbrev pub get_or : String → Json → Fields → Json
get_or key default fs = elim (get key fs) [ none ↦ default | some v ↦ v ]

unfoldable pub accepted_table : Texts → Fields → Bool
unfolding get truthy
accepted_table t fs =
    let verdict = t.upper (t.text (get_or "verdict" (str "") fs)) in
    truthy (get_or "ok" (get_or "accepted" (bool (verdict == "AC" || verdict == "OK")) fs) fs)

-- `float(n) >= 1.0`, of a finite number
unfoldable pub at_least_one : Num → Bool
at_least_one (int i) = leb 1 (pos_part i)
at_least_one (float m k) = leb (2 ^ k) (pos_part m)
at_least_one (inf negative) = false
at_least_one nan = false

unfoldable pub checked : Texts → CheckerResult → Option (Bool × String)
unfolding accepted_table get_or_null or_else is_finite_number at_least_one
checked t raised = none
checked t unsupported = none
checked t (flag b) = by_flag b
checked t (table fs) =
    let accepted = accepted_table t fs in
    some (accepted, t.text (or_else (get_or_null "message" fs) (str (default_message accepted))))
checked t (number n) = if is_finite_number n then by_flag (at_least_one n) else none

unfoldable pub same_bytes : List ℕ → List ℕ → Bool
same_bytes [] [] = true
same_bytes [] (d ∷ ds) = false
same_bytes (c ∷ cs) [] = false
same_bytes (c ∷ cs) (d ∷ ds) = nat_eq c d && same_bytes cs ds

unfoldable pub same_words : List (List ℕ) → List (List ℕ) → Bool
unfolding same_bytes
same_words [] [] = true
same_words [] (v ∷ vs) = false
same_words (w ∷ ws) [] = false
same_words (w ∷ ws) (v ∷ vs) = same_bytes w v && same_words ws vs

-- `_check_output`
unfoldable pub check_output : Texts → Checker → TestCase → List ℕ → Option (Bool × String)
unfolding split_bytes same_words checked
check_output t checker c output = elim c.answer [
  | none ↦ none
  | some answer ↦ elim checker [
    | none ↦ by_flag (same_words (split_bytes output) (split_bytes answer))
    | some check ↦ checked t (check c.input answer output)
  ]
]
