-- ===== src/Classic/Process.antt =====
-- `_run_process` of src/grader/classic.py: how a process is watched, and what its end means. What the
-- operating system shows is a value: the sizes and the clock at each turn of the loop, in nanoseconds,
-- and what is found when the process has ended.
use brunost_judge.Prelude.{
  ℕ, ◌-◌, ◌*◌, ◌^◌, String, Bool, true, false, not, ◌&&◌, ◌||◌, Option, none, some, List, [], ◌∷◌,
  ltb, leb, if◌then◌else◌,
}
use brunost_judge.Prelude.Int.{ℤ, pos, eq_ℤ}
use brunost_judge.Text.{text_length, ◌+++◌}
use brunost_judge.Store.Deliveries.{first_chars}

abbrev pub max_diagnostic_chars : ℕ
max_diagnostic_chars = 4000

abbrev pub max_stderr_bytes : ℕ
max_stderr_bytes = 2 ^ 20

-- the verdicts, in the order OK, WA, TLE, OLE, RE, CE, AC and judge_error
pub data Verdict : Type 0 where
  passed wa tle ole re ce ac judge_error : Verdict

-- `ProcessOutcome`
pub record ProcessOutcome : Type 0 where
  pub verdict : Verdict
  pub elapsed : ℕ
  pub output_bytes : ℕ
  pub stderr : String

-- what one turn of the loop sees while the process runs
pub record Sample : Type 0 where
  pub stdout_size : Option ℕ
  pub stderr_size : ℕ
  pub elapsed : ℕ

-- what is found when the process has ended; `stderr` is decoded from the first bytes
pub record Ended : Type 0 where
  pub stdout_size : Option ℕ
  pub stderr_size : ℕ
  pub elapsed : ℕ
  pub stderr : String
  pub returncode : ℤ

-- `Popen` raises an OSError, or the process runs; the last field is what it leaves in its output
pub data Launched : Type 0 where
  os_error : String → Launched
  started : List Sample → Ended → List ℕ → Launched

-- why the loop ends
pub data Stop : Type 0 where
  exited output_limited stderr_limited timed_out : Stop

-- the arguments that the watching uses: whether there is a file for the output, and the limits
pub record Limits : Type 0 where
  pub has_stdout : Bool
  pub output_limit_bytes : Option ℕ
  pub timeout_ms : ℕ

-- a size above the limit on the output, if there is one
unfoldable pub above_limit : Limits → ℕ → Bool
above_limit l size = elim l.output_limit_bytes [
  | none ↦ false
  | some limit ↦ l.has_stdout && ltb limit size
]

-- a size that reaches the limit
unfoldable pub at_limit : Limits → ℕ → Bool
at_limit l size = elim l.output_limit_bytes [
  | none ↦ false
  | some limit ↦ l.has_stdout && leb limit size
]

abbrev pub file_size : Option ℕ → ℕ
file_size none = 0
file_size (some n) = n

abbrev pub output_above : Limits → Option ℕ → Bool
output_above l none = false
output_above l (some size) = above_limit l size

abbrev pub is_late : Limits → ℕ → Bool
is_late l elapsed = ltb (l.timeout_ms * 1000000) elapsed

-- the loop
unfoldable pub watch : Limits → List Sample → Stop
unfolding above_limit
watch l [] = exited
watch l (s ∷ ss) =
    let rest = watch l ss in
    if output_above l s.stdout_size
    then output_limited
    else (if ltb max_stderr_bytes s.stderr_size
        then stderr_limited
        else (if is_late l s.elapsed then timed_out else rest))

abbrev pub is_output_limited : Stop → Bool
is_output_limited output_limited = true
is_output_limited _ = false

abbrev pub is_stderr_limited : Stop → Bool
is_stderr_limited stderr_limited = true
is_stderr_limited _ = false

abbrev pub is_timed_out : Stop → Bool
is_timed_out timed_out = true
is_timed_out _ = false

abbrev pub output_size : Limits → Ended → ℕ
output_size l e = if l.has_stdout then file_size e.stdout_size else 0

abbrev pub stderr_overflows : Stop → Ended → Bool
stderr_overflows stop e = is_stderr_limited stop || ltb max_stderr_bytes e.stderr_size

-- the verdict of a process that ran
unfoldable pub verdict_of : Limits → Stop → Ended → Verdict
unfolding above_limit at_limit
verdict_of l stop e =
    let size = output_size l e in
    let failed = not (eq_ℤ e.returncode (pos 0)) in
    if stderr_overflows stop e || is_output_limited stop || above_limit l size
    then ole
    else (if is_timed_out stop
        then tle
        else (if failed && at_limit l size then ole else (if failed then re else passed)))

abbrev pub stderr_marker : String
stderr_marker = "\nstderr exceeded the diagnostic limit"

abbrev pub with_marker : String → String
with_marker s = first_chars (max_diagnostic_chars - text_length stderr_marker) s +++ stderr_marker

-- `_run_process`
unfoldable pub run_process : Limits → Launched → ProcessOutcome
unfolding watch verdict_of first_chars
run_process l (os_error reason) = record {
  verdict = judge_error;
  elapsed = 0;
  output_bytes = 0;
  stderr = reason;
}
run_process l (started samples e output) =
    let stop = watch l samples in
    record {
      verdict = verdict_of l stop e;
      elapsed = e.elapsed;
      output_bytes = output_size l e;
      stderr = if stderr_overflows stop e then with_marker e.stderr else e.stderr;
    }
