-- ===== src/Classic/Tests.antt =====
-- Two tests, a program that prints the sum of its numbers, and what becomes of it.
use brunost_judge.Prelude.{
  ◌^◌, ◌==◌, if◌then◌else◌, String, ℕ, ◌≡◌, ◌↔◌, ◌⊎◌, refl, true, Option, none, some, List, [], ◌∷◌,
}
use brunost_judge.Prelude.Int.{pos}
use brunost_judge.Classic.Process.{
  passed, wa, tle, Sample, Ended, os_error, started, Limits, run_process,
}
use brunost_judge.Classic.Limits.{IsWithin, passed_iff_IsWithin}
use brunost_judge.Classic.Words.{Layout, last, next}
use brunost_judge.Classic.Checker.{TestCase, TestFiles, Texts, check_output}
use brunost_judge.Classic.Settings.{TextMethods, config_of, ClassicConfig}
use brunost_judge.Classic.Config.{IsConfig, config_of-IsConfig}
use brunost_judge.Classic.Answers.{accepted_iff_Layout}
use brunost_judge.Classic.Judge.{interpreted, World, Report, run_classic}
use brunost_judge.Classic.Report.{file_ids, fresh_ids}
use brunost_judge.Classic.Judged.{IsCompileError, IsReport, completed-IsReport}

abbrev plain : Texts
plain = record { text = λ j. ""; upper = λ s. s }

abbrev files : List TestFiles
files =
    record { test_id = "a"; input = b'1' ∷ []; ans = some (b'2' ∷ 10 ∷ []); out = none }
    ∷ record { test_id = "b"; input = b'3' ∷ []; ans = none; out = some (b'4' ∷ []) }
    ∷ []

abbrev settings : ClassicConfig
settings = record {
  time_limit_ms = 2000;
  output_limit_bytes = 100;
  kind = "coding";
  language = "python";
  entrypoint = none;
  interactor = "interactor.py";
  memory_limit_mb = 512;
  answer_source = "answer_key";
  scoring_mode = "percentage";
  reference_language = "python";
  reference_entrypoint = none;
}

-- Python's methods on the texts that the settings below have
abbrev methods : TextMethods
methods = record {
  lower = λ s. s;
  replace = λ s old new. s;
  parse_int = λ s. if s == "2000" then some (pos 2000) else none;
}

abbrev judge_yaml : String → Option String
judge_yaml key =
    if key == "kind"
    then some "coding"
    else (if key == "version"
        then some "1"
        else (if key == "language"
            then some "py"
            else (if key == "time_limit_ms" then some "2000" else none)))

-- the settings default to a key of answers, all or nothing
settings_are_read :
    config_of methods judge_yaml
    ≡ some (record settings { scoring_mode = "all_or_nothing"; output_limit_bytes = 2 ^ 20 })
unfolding config_of
settings_are_read = refl

abbrev read_settings : ClassicConfig
read_settings = record settings { scoring_mode = "all_or_nothing"; output_limit_bytes = 2 ^ 20 }

config_of-IsConfig_example : IsConfig read_settings
config_of-IsConfig_example = config_of-IsConfig methods judge_yaml read_settings settings_are_read

abbrev looks : List Sample
looks = record { stdout_size = some 0; stderr_size = 0; elapsed = 10000000 } ∷ []

abbrev finished : Ended
finished = record {
  stdout_size = some 2;
  stderr_size = 0;
  elapsed = 12000000;
  stderr = "";
  returncode = pos 0;
}

-- it prints 2 whatever it reads
abbrev prints_two : World
prints_two = record {
  reference_tools = interpreted;
  reference = λ c. os_error "";
  candidate_tools = interpreted;
  candidate = λ c. started looks finished (b'2' ∷ 32 ∷ []);
}

-- the program cannot be started
abbrev cannot_start : World
cannot_start = record prints_two { candidate = λ c. os_error "bwrap is required" }

abbrev half : Option (ℕ × ℕ)
half = some (1, 2)

abbrev score_of_result : Option Report → Option (ℕ × ℕ)
score_of_result none = none
score_of_result (some r) = some r.score

half_right : score_of_result (run_classic plain none settings files prints_two) ≡ half
unfolding run_classic
half_right = refl

abbrev half_report : Report
half_report = elim (run_classic plain none settings files prints_two) [
  | some r ↦ r
  | none ↦ record {
    score = (0, 1);
    verdict = wa;
    tests = [];
    passed_tests = 0;
    total_tests = 0;
    language = "";
    scoring_mode = "";
    compile_stderr = none;
  }
]

completed-IsReport_example : IsCompileError half_report ⊎ IsReport (file_ids files) half_report
unfolding run_classic fresh_ids
completed-IsReport_example =
    completed-IsReport plain none settings files prints_two half_report refl refl

-- a program that the evaluator cannot start is reported as a wrong answer
not_started_is_wrong :
    elim (run_classic plain none settings files cannot_start) [ none ↦ tle | some r ↦ r.verdict ]
    ≡ wa
unfolding run_classic
not_started_is_wrong = refl

abbrev two_seconds : Limits
two_seconds = record { has_stdout = true; output_limit_bytes = some 100; timeout_ms = 2000 }

passed_iff_IsWithin_example :
    ((run_process two_seconds (started looks finished [])).verdict ≡ passed)
    ↔ IsWithin two_seconds looks finished
passed_iff_IsWithin_example = passed_iff_IsWithin two_seconds looks finished []

abbrev one_two : TestCase
one_two = record { test_id = "a"; input = []; answer = some (b'1' ∷ 32 ∷ b'2' ∷ []) }

abbrev words : List (List ℕ)
words = (b'1' ∷ []) ∷ (b'2' ∷ []) ∷ []

accepted_iff_Layout_example :
    (check_output plain none one_two (b'1' ∷ 10 ∷ b'2' ∷ 10 ∷ []) ≡ some (true, ""))
    ↔ Layout words (b'1' ∷ 10 ∷ b'2' ∷ 10 ∷ [])
accepted_iff_Layout_example =
    accepted_iff_Layout plain one_two (b'1' ∷ 32 ∷ b'2' ∷ []) (b'1' ∷ 10 ∷ b'2' ∷ 10 ∷ []) words
      refl
      (next [] b'1' [] 32 ((b'2' ∷ []) ∷ []) (b'2' ∷ []) tt (refl, tt) refl
        (last [] b'2' [] tt (refl, tt)))
