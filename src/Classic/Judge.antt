-- ===== src/Classic/Judge.antt =====
-- The judging of a submission, `run_classic` of src/grader/classic.py, with what it reads from the
-- file system and what its processes do as values. A failed evaluation is `none`, whatever its reason.
use brunost_judge.Prelude.{
  ℕ, suc, String, Bool, true, false, Option, none, some, List, [], ◌∷◌, nat_eq, length, ◌==◌,
  if◌then◌else◌,
}
use brunost_judge.Store.Deliveries.{first_chars}
use brunost_judge.Classic.Process.{
  Verdict, passed, wa, tle, ole, re, ce, ac, judge_error, ProcessOutcome, Launched, os_error,
  started, Limits, run_process, max_diagnostic_chars,
}
use brunost_judge.Classic.Checker.{
  TestCase, TestFiles, Checker, Texts, compile_timeout_ms, test_cases, check_output,
}
use brunost_judge.Classic.Settings.{ClassicConfig, uses_reference, is_all_or_nothing}

-- how a program is made: Python needs no compiler, and the compiler is not there or is run
pub data Toolchain : Type 0 where
  interpreted no_compiler : Toolchain
  compiler : Launched → Toolchain

-- what `_compile` does: a ClassicJudgeError, a `_CompileFailure`, or a program
pub data Compiled : Type 0 where
  cannot_compile : Compiled
  compile_failure compiled : String → Compiled

abbrev pub compile_limits : Limits
compile_limits = record {
  has_stdout = false;
  output_limit_bytes = none;
  timeout_ms = compile_timeout_ms;
}

abbrev pub compiled_as : Verdict → String → Compiled
compiled_as passed stderr = compiled stderr
compiled_as judge_error stderr = cannot_compile
compiled_as _ stderr = compile_failure stderr

-- `_compile`
unfoldable pub compile : Toolchain → Compiled
unfolding run_process
compile interpreted = compiled ""
compile no_compiler = cannot_compile
compile (compiler l) =
    let outcome = run_process compile_limits l in compiled_as outcome.verdict outcome.stderr

-- what the evaluator's surroundings do
pub record World : Type 0 where
  pub reference_tools : Toolchain
  pub reference : TestCase → Launched
  pub candidate_tools : Toolchain
  pub candidate : TestCase → Launched

abbrev pub case_limits : ClassicConfig → Limits
case_limits cfg = record {
  has_stdout = true;
  output_limit_bytes = some cfg.output_limit_bytes;
  timeout_ms = cfg.time_limit_ms;
}

abbrev pub is_passed : Verdict → Bool
is_passed passed = true
is_passed _ = false

abbrev pub output_of : Launched → List ℕ
output_of (os_error reason) = []
output_of (started samples e output) = output

-- the loop over the cases of `_reference_answers`
unfoldable pub resolved : ClassicConfig → World → List TestCase → Option (List TestCase)
unfolding run_process
resolved cfg w [] = some []
resolved cfg w (c ∷ cs) =
    let rest = resolved cfg w cs in
    if is_passed (run_process (case_limits cfg) (w.reference c)).verdict
    then elim rest [
      | none ↦ none
      | some cases ↦ some (record c { answer = some (output_of (w.reference c)) } ∷ cases)
    ]
    else none

-- the reference solution, once it is compiled, answers the cases
abbrev pub answered_by : ClassicConfig → World → List TestCase → Compiled → Option (List TestCase)
answered_by cfg w cases cannot_compile = none
answered_by cfg w cases (compile_failure message) = none
answered_by cfg w cases (compiled stderr) = resolved cfg w cases

-- `_reference_answers`
unfoldable pub reference_answers : ClassicConfig → World → List TestCase → Option (List TestCase)
unfolding compile resolved
reference_answers cfg w cases =
    if uses_reference cfg then answered_by cfg w cases (compile w.reference_tools) else some cases

-- an entry of `test_metrics`; the time is not rounded
pub record Row : Type 0 where
  pub test_id : String
  pub verdict : Verdict
  pub elapsed : ℕ
  pub output_bytes : ℕ
  pub message : Option String

abbrev pub kept_message : ℕ → String → Option String
kept_message n s = if s == "" then none else some (first_chars n s)

abbrev pub row_with : TestCase → ProcessOutcome → Verdict → String → Row
row_with c outcome verdict message = record {
  test_id = c.test_id;
  verdict = verdict;
  elapsed = outcome.elapsed;
  output_bytes = outcome.output_bytes;
  message = kept_message 1000 message;
}

-- the row of a program that ended with OK, from the checker's answer
unfoldable pub checked_row : TestCase → ProcessOutcome → Option (Bool × String) → Option Row
unfolding first_chars
checked_row c outcome none = none
checked_row c outcome (some (accepted, message)) = some (
    row_with c outcome (if accepted then passed else wa)
      (if message == "" then outcome.stderr else message))

-- one round of the loop: the row, or the error of the checker
unfoldable pub row_of : Texts → Checker → TestCase → ProcessOutcome → List ℕ → Option Row
unfolding check_output checked_row first_chars
row_of t checker c outcome output =
    if is_passed outcome.verdict
    then checked_row c outcome (check_output t checker c output)
    else some (row_with c outcome outcome.verdict outcome.stderr)

-- `test_metrics[case.test_id] = ...`
unfoldable pub put_row : Row → List Row → List Row
put_row r [] = r ∷ []
put_row r (s ∷ rows) = if s.test_id == r.test_id then r ∷ rows else s ∷ put_row r rows

-- the loop over the cases
unfoldable pub judge_cases :
    Texts → Checker → ClassicConfig → World → List Row → List TestCase → Option (List Row)
unfolding run_process row_of put_row
judge_cases t checker cfg w rows [] = some rows
judge_cases t checker cfg w rows (c ∷ cs) =
    let outcome = run_process (case_limits cfg) (w.candidate c) in
    elim (row_of t checker c outcome (output_of (w.candidate c))) [
      | none ↦ none
      | some r ↦ judge_cases t checker cfg w (put_row r rows) cs
    ]

unfoldable pub count_passed : List Row → ℕ
count_passed [] = 0
count_passed (r ∷ rows) =
    let rest = count_passed rows in if is_passed r.verdict then suc rest else rest

abbrev pub is_break : Verdict → Bool
is_break tle = true
is_break ole = true
is_break re = true
is_break _ = false

-- the loop that looks for the first TLE, OLE or RE
unfoldable pub overall : Verdict → List Row → Verdict
overall v [] = v
overall v (r ∷ rows) = let rest = overall v rows in if is_break r.verdict then r.verdict else rest

-- a completed evaluation; the score is a fraction
pub record Report : Type 0 where
  pub score : ℕ × ℕ
  pub verdict : Verdict
  pub tests : List Row
  pub passed_tests : ℕ
  pub total_tests : ℕ
  pub language : String
  pub scoring_mode : String
  pub compile_stderr : Option String

abbrev pub score_of : Bool → ℕ → ℕ → ℕ × ℕ
score_of true n total = (if nat_eq n total then 1 else 0, 1)
score_of false n total = (n, total)

-- the report on a program that was compiled
unfoldable pub report : ClassicConfig → String → List Row → Report
unfolding count_passed overall first_chars
report cfg stderr rows =
    let n = count_passed rows in
    let total = length rows in
    record {
      score = score_of (is_all_or_nothing cfg) n total;
      verdict = overall (if nat_eq n total then ac else wa) rows;
      tests = rows;
      passed_tests = n;
      total_tests = total;
      language = cfg.language;
      scoring_mode = cfg.scoring_mode;
      compile_stderr = kept_message max_diagnostic_chars stderr;
    }

unfoldable pub compile_error : ClassicConfig → String → ℕ → Report
unfolding first_chars
compile_error cfg message total = record {
  score = (0, 1);
  verdict = ce;
  tests = [];
  passed_tests = 0;
  total_tests = total;
  language = cfg.language;
  scoring_mode = cfg.scoring_mode;
  compile_stderr = kept_message max_diagnostic_chars message;
}

-- the submission is compiled and judged
unfoldable pub judge :
    Texts → Checker → ClassicConfig → World → List TestCase → Compiled → Option Report
unfolding judge_cases report compile_error
judge t checker cfg w cases cannot_compile = none
judge t checker cfg w cases (compile_failure message) =
    some (compile_error cfg message (length cases))
judge t checker cfg w cases (compiled stderr) = elim (judge_cases t checker cfg w [] cases) [
  | none ↦ none
  | some rows ↦ some (report cfg stderr rows)
]

-- `run_classic`, once the settings are read
unfoldable pub run_classic :
    Texts → Checker → ClassicConfig → List TestFiles → World → Option Report
unfolding test_cases reference_answers compile judge
run_classic t checker cfg files w = elim (test_cases (uses_reference cfg) files) [
  | none ↦ none
  | some cases ↦ elim (reference_answers cfg w cases) [
    | none ↦ none
    | some answered ↦ judge t checker cfg w answered (compile w.candidate_tools)
  ]
]
