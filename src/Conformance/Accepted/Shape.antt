-- ===== src/Conformance/Accepted/Shape.antt =====
-- The parts of a result payload that is in order.
use Prim.Native.String.{len}
use brunost_judge.Prelude.Int.{pos}
use brunost_judge.Contracts.{result_schema_version}
use brunost_judge.Prelude.{◌≤◌, String, ◌≡◌, ◌≢◌, true}
use brunost_judge.Json.{
  int, end, field, size, json_eq, Num, Json, null, num, str, obj, Fields, get_or_null, or_else,
}
use brunost_judge.Text.{text_length}
use brunost_judge.Platform.{Platform}
use brunost_judge.Conformance.{
  max_result_metrics_bytes, max_result_scores, max_result_artifacts, names_artifact,
  is_finite_number, dumps_accepts_fields, get_or_empty,
}

pub data IsStatus : Json → Type 0 where
  queued : IsStatus (str "queued")
  running : IsStatus (str "running")
  completed : IsStatus (str "completed")
  failed : IsStatus (str "failed")
  canceled : IsStatus (str "canceled")

pub data IsScore : Json → Type 0 where
  unscored : IsScore null
  finite : (n : Num) → is_finite_number n ≡ true → IsScore (num n)

pub data IsName : Json → Type 0 where
  name : (s : String) → s ≢ "" → IsName (str s)

pub data IsWinner : Json → Type 0 where
  undecided : IsWinner null
  winner : (s : String) → s ≢ "" → IsWinner (str s)

pub data IsReason : Json → Type 0 where
  unexplained : IsReason null
  reason : (s : String) → text_length s ≤ 2000 → IsReason (str s)

-- JSON without NaN or infinities, of at most a million bytes
pub data IsMetrics (lib : Platform) : Json → Type 0 where
  metrics :
      (fs : Fields)
      → dumps_accepts_fields fs ≡ true
      → len (lib.dumps fs) ≤ max_result_metrics_bytes
      → IsMetrics lib (obj fs)

-- a name of at most 200 characters
pub record IsLabel (s : String) : Type 0 where
  pub present : s ≢ ""
  pub short : text_length s ≤ 200

-- a finite number for each seat
pub data SeatScores : Fields → Type 0 where
  no_seats : SeatScores end
  seat :
      (s : String) (n : Num) (fs : Fields)
      → IsLabel s
      → is_finite_number n ≡ true
      → SeatScores fs
      → SeatScores (field s (num n) fs)

pub data IsScores : Json → Type 0 where
  unshared : IsScores null
  shared : (fs : Fields) → size fs ≤ max_result_scores → SeatScores fs → IsScores (obj fs)

-- a descriptor with an artifact identifier for each name
pub data NamedArtifacts : Fields → Type 0 where
  no_artifacts : NamedArtifacts end
  artifact :
      (s : String) (v : Json) (fs : Fields)
      → IsLabel s
      → names_artifact v ≡ true
      → NamedArtifacts fs
      → NamedArtifacts (field s v fs)

pub data IsArtifacts : Json → Type 0 where
  unkept : IsArtifacts null
  kept : (fs : Fields) → size fs ≤ max_result_artifacts → NamedArtifacts fs → IsArtifacts (obj fs)

pub data IsVersion : Json → Type 0 where
  unversioned : IsVersion null
  version : (v : Json) → json_eq v (num (int (pos result_schema_version))) ≡ true → IsVersion v

pub record IsResult (lib : Platform) (p : Fields) : Type 0 where
  pub execution : IsName (or_else (get_or_null "execution_id" p) (get_or_null "evaluation_id" p))
  pub task : IsName (get_or_null "task_ref" p)
  pub status : IsStatus (get_or_null "status" p)
  pub score : IsScore (get_or_null "score" p)
  pub metrics : IsMetrics lib (get_or_empty "metrics" p)
  pub scores : IsScores (get_or_null "scores" p)
  pub artifacts : IsArtifacts (get_or_empty "artifacts" p)
  pub result_version : IsVersion (get_or_null "result_version" p)
  pub winner : IsWinner (get_or_null "winner" p)
  pub failure_reason : IsReason (get_or_null "failure_reason" p)
