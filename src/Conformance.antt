-- ===== src/Conformance.antt =====
-- src/brunost_judge/conformance.py: the checks on results of executions, on the reduced results of
-- a sandbox. Each check appends its messages to a list.
pub mod Accepted
pub mod Capabilities
use brunost_judge.Prelude.{
  ℕ, ◌-◌, ◌^◌, String, Bool, true, false, not, ◌&&◌, ◌||◌, Option, none, some, List, [], ◌∷◌, ◌++◌,
  ltb, nat_eq, ◌==◌, if◌then◌else◌,
}
use Prim.Native.String.{len}
use brunost_judge.Prelude.Int.{pos, pos_part, neg_part}
use brunost_judge.Json.{
  Num, int, float, inf, nan, Json, null, bool, num, str, arr, obj, Items, nil, cons, Fields, end,
  field, get, get_or_null, size, or_else, json_eq,
}
use brunost_judge.Text.{codes, text_length, ◌+++◌, is_hex, all_codes, has_parent_part, is_absolute}
use brunost_judge.Contracts.{result_schema_version}
use brunost_judge.Platform.{Platform}

abbrev pub max_result_metrics_bytes : ℕ
max_result_metrics_bytes = 1000000

abbrev pub max_result_failure_reason_chars : ℕ
max_result_failure_reason_chars = 2000

abbrev pub max_result_artifacts : ℕ
max_result_artifacts = 32

abbrev pub max_result_scores : ℕ
max_result_scores = 64

-- `if test: errors.append(message)`
unfoldable pub error_if : Bool → String → List String
error_if test message = if test then message ∷ [] else []

-- From here on `float(n)` raises OverflowError: the halfway point above the largest double.
float_overflow : ℕ
float_overflow = 2 ^ 1024 - 2 ^ 970

-- `_is_finite_number`
unfoldable pub is_finite_number : Num → Bool
unfolding float_overflow
is_finite_number (int n) = ltb (pos_part n) float_overflow && ltb (neg_part n) float_overflow
is_finite_number (float m k) = true
is_finite_number (inf sign) = false
is_finite_number nan = false

-- the branch on a `score`; `label` is the text in front of the message
unfoldable pub score_errors : String → Json → List String
unfolding error_if is_finite_number
score_errors label null = []
score_errors label (num n) = error_if (not (is_finite_number n)) (label +++ " must be finite")
score_errors label _ = label +++ " must be numeric or null" ∷ []

unfoldable mutual
  -- whether `json.dumps(..., allow_nan=False)` finds no NaN and no infinity
  pub dumps_accepts : Json → Bool
  dumps_accepts null = true
  dumps_accepts (bool b) = true
  dumps_accepts (num (int n)) = true
  dumps_accepts (num (float m k)) = true
  dumps_accepts (num (inf sign)) = false
  dumps_accepts (num nan) = false
  dumps_accepts (str s) = true
  dumps_accepts (arr xs) = dumps_accepts_items xs
  dumps_accepts (obj fs) = dumps_accepts_fields fs

  pub dumps_accepts_items : Items → Bool
  dumps_accepts_items nil = true
  dumps_accepts_items (cons x xs) = dumps_accepts x && dumps_accepts_items xs

  pub dumps_accepts_fields : Fields → Bool
  dumps_accepts_fields end = true
  dumps_accepts_fields (field k v fs) = dumps_accepts v && dumps_accepts_fields fs

-- the two tests of one entry of `scores`
unfoldable pub score_entry_errors : String → String → Json → List String
unfolding error_if is_finite_number
score_entry_errors prefix seat (num n) =
    error_if (seat == "" || ltb 200 (text_length seat))
      (prefix +++ " keys must be non-empty strings")
    ++ error_if (not (is_finite_number n)) (prefix +++ " values must be finite")
score_entry_errors prefix seat _ =
    error_if (seat == "" || ltb 200 (text_length seat))
      (prefix +++ " keys must be non-empty strings")
    ++ error_if true (prefix +++ " values must be numeric")

unfoldable pub score_entries_errors : String → Fields → List String
unfolding score_entry_errors
score_entries_errors prefix end = []
score_entries_errors prefix (field seat v fs) =
    score_entry_errors prefix seat v ++ score_entries_errors prefix fs

-- `_validate_scores`
unfoldable pub scores_errors : String → Json → List String
unfolding error_if score_entries_errors size
scores_errors prefix null = []
scores_errors prefix (obj fs) =
    error_if (ltb max_result_scores (size fs)) (prefix +++ " contains too many entries")
    ++ score_entries_errors prefix fs
scores_errors prefix _ = prefix +++ " must be an object" ∷ []

-- `_ARTIFACT_ID_RE.fullmatch`
unfoldable pub is_artifact_id : String → Bool
unfolding all_codes is_hex
is_artifact_id s = nat_eq (text_length s) 64 && all_codes is_hex (codes s)

-- the descriptor of a stored artifact
unfoldable pub names_artifact : Json → Bool
unfolding get_or_null is_artifact_id
names_artifact (obj fs) = elim (get_or_null "artifact_id" fs) [
  | str s ↦ is_artifact_id s
  | _ ↦ false
]
names_artifact _ = false

-- the path of a descriptor that a sandbox wrote
descriptor_path : Json → Json
unfolding get_or_null
descriptor_path (str s) = str s
descriptor_path (obj fs) = get_or_null "path" fs
descriptor_path _ = null

path_errors : String → Json → List String
unfolding error_if is_absolute has_parent_part
path_errors label (str path) =
    if path == ""
    then label +++ " must declare a path" ∷ []
    else error_if (is_absolute path || has_parent_part path) (label +++ " path must be relative")
path_errors label _ = label +++ " must declare a path" ∷ []

-- one entry of `artifacts`
unfoldable pub artifact_errors : String → Bool → String → Json → List String
unfolding error_if path_errors descriptor_path names_artifact
artifact_errors prefix references name descriptor =
    if name == "" || ltb 200 (text_length name)
    then prefix +++ " names must be non-empty strings" ∷ []
    else if references
    then error_if (not (names_artifact descriptor))
        (prefix +++ "." +++ name +++ " must declare an artifact_id")
    else path_errors (prefix +++ "." +++ name) (descriptor_path descriptor)

unfoldable pub artifact_entries_errors : String → Bool → Fields → List String
unfolding artifact_errors
artifact_entries_errors prefix references end = []
artifact_entries_errors prefix references (field name v fs) =
    artifact_errors prefix references name v ++ artifact_entries_errors prefix references fs

-- `_validate_artifacts`
unfoldable pub artifacts_errors : String → Bool → Json → List String
unfolding error_if artifact_entries_errors size
artifacts_errors prefix references null = []
artifacts_errors prefix references (obj fs) =
    error_if (ltb max_result_artifacts (size fs)) (prefix +++ " contains too many entries")
    ++ artifact_entries_errors prefix references fs
artifacts_errors prefix references _ = prefix +++ " must be an object" ∷ []

-- `payload.get(key, {})`
unfoldable pub get_or_empty : String → Fields → Json
unfolding get
get_or_empty k fs = elim (get k fs) [ none ↦ obj end | some v ↦ v ]

unfoldable pub winner_errors : String → Json → List String
unfolding error_if
winner_errors label null = []
winner_errors label (str s) = error_if (s == "") (label +++ " must be a non-empty string or null")
winner_errors label _ = label +++ " must be a non-empty string or null" ∷ []

unfoldable pub reason_errors : Json → List String
unfolding error_if
reason_errors null = []
reason_errors (str s) =
    error_if (ltb max_result_failure_reason_chars (text_length s))
      "failure_reason must be at most 2000 characters"
reason_errors _ = "failure_reason must be at most 2000 characters" ∷ []

unfoldable pub version_errors : Json → List String
unfolding error_if json_eq
version_errors null = []
version_errors v =
    error_if (not (json_eq v (num (int (pos result_schema_version))))) "result_version must be 1"

unfoldable pub nonempty_text_errors : String → Json → List String
unfolding error_if
nonempty_text_errors message (str s) = error_if (s == "") message
nonempty_text_errors message _ = message ∷ []

unfoldable pub status_errors : Json → List String
unfolding error_if
status_errors (str s) =
    error_if
      (not
        (s == "completed" || s == "failed" || s == "canceled" || s == "queued" || s == "running"))
      "status must be queued, running, completed, failed, or canceled"
status_errors _ = "status must be queued, running, completed, failed, or canceled" ∷ []

-- A list or a dictionary has no hash: `in` a set raises TypeError.
unfoldable pub hashable : Json → Bool
hashable (arr xs) = false
hashable (obj fs) = false
hashable _ = true

runner_status_errors : Json → List String
unfolding error_if
runner_status_errors (str s) =
    error_if (not (s == "completed" || s == "failed"))
      "sandbox result status must be completed or failed"
runner_status_errors _ = "sandbox result status must be completed or failed" ∷ []

runner_reason_errors : Bool → Json → List String
unfolding error_if
runner_reason_errors is_failed (str s) =
    error_if (ltb max_result_failure_reason_chars (text_length s))
      "sandbox result failure_reason must be at most 2000 characters"
runner_reason_errors is_failed _ = error_if is_failed "failed sandbox results need a failure_reason"

module _ (lib : Platform) where
  -- `_validate_json_size`, and the test before it that the value is a dictionary
  unfoldable pub metrics_errors : String → Json → List String
  unfolding error_if dumps_accepts
  metrics_errors label (obj fs) =
      if dumps_accepts_fields fs
      then error_if (ltb max_result_metrics_bytes (len (lib.dumps fs)))
          (label +++ " exceeds 1000000 bytes")
      else label +++ " must contain only JSON-compatible finite values" ∷ []
  metrics_errors label _ = label +++ " must be an object" ∷ []

  -- the messages of `validate_result_payload`, once the status has a hash
  unfoldable pub result_errors : Fields → List String
  unfolding get_or_null or_else nonempty_text_errors status_errors score_errors get_or_empty
      metrics_errors scores_errors winner_errors artifacts_errors reason_errors version_errors
  result_errors p =
      nonempty_text_errors "missing evaluation_id"
        (or_else (get_or_null "execution_id" p) (get_or_null "evaluation_id" p))
      ++ (nonempty_text_errors "missing task_ref" (get_or_null "task_ref" p)
          ++ (status_errors (get_or_null "status" p)
              ++ (score_errors "score" (get_or_null "score" p)
                  ++ (metrics_errors "metrics" (get_or_empty "metrics" p)
                      ++ (scores_errors "scores" (get_or_null "scores" p)
                          ++ (winner_errors "winner" (get_or_null "winner" p)
                              ++ (artifacts_errors "artifacts" true (get_or_empty "artifacts" p)
                                  ++ (reason_errors (get_or_null "failure_reason" p)
                                      ++ version_errors (get_or_null "result_version" p)))))))))

  -- `validate_result_payload`; `none` is the TypeError of a status without a hash
  unfoldable pub validate_result_payload : Fields → Option (List String)
  unfolding get_or_null hashable result_errors
  validate_result_payload p =
      if hashable (get_or_null "status" p) then some (result_errors p) else none

  -- `validate_runner_result_payload`
  unfoldable pub validate_runner_result_payload : Fields → Option (List String)
  unfolding get_or_null runner_status_errors score_errors get_or_empty metrics_errors scores_errors
      winner_errors artifacts_errors runner_reason_errors version_errors hashable json_eq
  validate_runner_result_payload p =
      if hashable (get_or_null "status" p)
      then some (
          runner_status_errors (get_or_null "status" p)
          ++ (score_errors "sandbox result score" (get_or_null "score" p)
              ++ (metrics_errors "sandbox result metrics" (get_or_empty "metrics" p)
                  ++ (scores_errors "sandbox result scores" (get_or_null "scores" p)
                      ++ (winner_errors "sandbox result winner" (get_or_null "winner" p)
                          ++ (artifacts_errors "sandbox result artifacts" false
                                (get_or_empty "artifacts" p)
                              ++ (runner_reason_errors
                                    (json_eq (get_or_null "status" p) (str "failed"))
                                    (get_or_null "failure_reason" p)
                                  ++ version_errors (get_or_null "result_version" p))))))))
      else none
