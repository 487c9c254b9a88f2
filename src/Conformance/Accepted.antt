-- ===== src/Conformance/Accepted.antt =====
-- What a result payload is that passes `validate_result_payload`.
pub mod Shape
mod Entries
use Prim.Native.String.{len}
use brunost_judge.Prelude.Int.{pos}
use brunost_judge.Contracts.{result_schema_version}
use brunost_judge.Prelude.{
  ltb, not, ◌||◌, ◌≤◌, String, ◌≡◌, ◌≢◌, refl, sym, subst, inl, inr, Bool, true, false, Bool-cases,
  some, List, [], ◌∷◌, ◌++◌, arith, ◌==◌, eq_iff, ==→eq,
}
use brunost_judge.Json.{
  int, end, field, size, json_eq, Num, Json, null, bool, num, str, arr, obj, Fields, get_or_null,
  or_else,
}
use brunost_judge.Text.{text_length, ◌+++◌}
use brunost_judge.Platform.{Platform}
use brunost_judge.Conformance.{
  max_result_metrics_bytes, max_result_scores, max_result_artifacts, names_artifact,
  score_entry_errors, score_entries_errors, artifact_errors, artifact_entries_errors, scores_errors,
  artifacts_errors, version_errors, result_errors, error_if, is_finite_number, score_errors,
  dumps_accepts_fields, get_or_empty, winner_errors, reason_errors, nonempty_text_errors,
  status_errors, metrics_errors, validate_result_payload, hashable,
}
use brunost_judge.Conformance.Accepted.Shape.{
  IsStatus, queued, running, completed, failed, canceled, IsScore, unscored, finite, IsName, name,
  IsWinner, undecided, winner, IsReason, unexplained, reason, IsMetrics, metrics, IsVersion,
  unversioned, version, IsResult,
}
use brunost_judge.Conformance.Accepted.Entries.{
  error_if-nil, append-nil, given, scores_errors-IsScores, artifacts_errors-IsArtifacts,
}

nonempty_text_errors-IsName : (m : String) (j : Json) → nonempty_text_errors m j ≡ [] → IsName j
unfolding nonempty_text_errors
nonempty_text_errors-IsName m (str s) h = name s (given s (error_if-nil (s == "") m h))
nonempty_text_errors-IsName m null h = absurd (cc h)
nonempty_text_errors-IsName m (bool b) h = absurd (cc h)
nonempty_text_errors-IsName m (num n) h = absurd (cc h)
nonempty_text_errors-IsName m (arr xs) h = absurd (cc h)
nonempty_text_errors-IsName m (obj fs) h = absurd (cc h)

score_errors-IsScore : (m : String) (j : Json) → score_errors m j ≡ [] → IsScore j
unfolding score_errors
score_errors-IsScore m null h = unscored
score_errors-IsScore m (num n) h = let ok = error_if-nil _ _ h in finite n (ground arith)
score_errors-IsScore m (str s) h = absurd (cc h)
score_errors-IsScore m (bool b) h = absurd (cc h)
score_errors-IsScore m (arr xs) h = absurd (cc h)
score_errors-IsScore m (obj fs) h = absurd (cc h)

winner_errors-IsWinner : (m : String) (j : Json) → winner_errors m j ≡ [] → IsWinner j
unfolding winner_errors
winner_errors-IsWinner m null h = undecided
winner_errors-IsWinner m (str s) h = winner s (given s (error_if-nil _ _ h))
winner_errors-IsWinner m (num n) h = absurd (cc h)
winner_errors-IsWinner m (bool b) h = absurd (cc h)
winner_errors-IsWinner m (arr xs) h = absurd (cc h)
winner_errors-IsWinner m (obj fs) h = absurd (cc h)

reason_errors-IsReason : (j : Json) → reason_errors j ≡ [] → IsReason j
unfolding reason_errors
reason_errors-IsReason null h = unexplained
reason_errors-IsReason (str s) h = let short = error_if-nil _ _ h in reason s (ground arith)
reason_errors-IsReason (num n) h = absurd (cc h)
reason_errors-IsReason (bool b) h = absurd (cc h)
reason_errors-IsReason (arr xs) h = absurd (cc h)
reason_errors-IsReason (obj fs) h = absurd (cc h)

text-IsStatus : (s t : String) → (s == t) ≡ true → IsStatus (str t) → IsStatus (str s)
text-IsStatus s t e known = subst (λ x. IsStatus (str x)) (sym (==→eq s t e)) known

status_errors-IsStatus : (j : Json) → status_errors j ≡ [] → IsStatus j
unfolding status_errors
status_errors-IsStatus (str s) h = elim (Bool-cases (s == "completed")) [
  | inl e ↦ text-IsStatus s "completed" e completed
  | inr n1 ↦ elim (Bool-cases (s == "failed")) [
    | inl e ↦ text-IsStatus s "failed" e failed
    | inr n2 ↦ elim (Bool-cases (s == "canceled")) [
      | inl e ↦ text-IsStatus s "canceled" e canceled
      | inr n3 ↦ elim (Bool-cases (s == "queued")) [
        | inl e ↦ text-IsStatus s "queued" e queued
        | inr n4 ↦ elim (Bool-cases (s == "running")) [
          | inl e ↦ text-IsStatus s "running" e running
          | inr n5 ↦ absurd (ground (arith, error_if-nil _ _ h))
        ]
      ]
    ]
  ]
]
status_errors-IsStatus null h = absurd (cc h)
status_errors-IsStatus (num n) h = absurd (cc h)
status_errors-IsStatus (bool b) h = absurd (cc h)
status_errors-IsStatus (arr xs) h = absurd (cc h)
status_errors-IsStatus (obj fs) h = absurd (cc h)

metrics_errors-IsMetrics :
    (lib : Platform) (m : String) (j : Json) → metrics_errors lib m j ≡ [] → IsMetrics lib j
unfolding metrics_errors
metrics_errors-IsMetrics lib m (obj fs) h = elim (Bool-cases (dumps_accepts_fields fs)) [
  | inr bad ↦ absurd (ground (arith, bad, h))
  | inl finite_values ↦
      let small : ltb max_result_metrics_bytes (len (lib.dumps fs)) ≡ false =
        error_if-nil _ (m +++ " exceeds 1000000 bytes") (ground (arith, finite_values, h)) in
      metrics fs finite_values (ground (arith, small))
]
metrics_errors-IsMetrics lib m null h = absurd (cc h)
metrics_errors-IsMetrics lib m (str s) h = absurd (cc h)
metrics_errors-IsMetrics lib m (num n) h = absurd (cc h)
metrics_errors-IsMetrics lib m (bool b) h = absurd (cc h)
metrics_errors-IsMetrics lib m (arr xs) h = absurd (cc h)

version_errors-IsVersion : (j : Json) → version_errors j ≡ [] → IsVersion j
unfolding version_errors
version_errors-IsVersion null h = unversioned
version_errors-IsVersion v h =
    let same : not (json_eq v (num (int (pos result_schema_version)))) ≡ false =
      error_if-nil _ _ h in
    version v (ground (arith, same))

no_errors-IsResult : (lib : Platform) (p : Fields) → result_errors lib p ≡ [] → IsResult lib p
unfolding result_errors
no_errors-IsResult lib p h =
    let (execution, r1) = append-nil _ _ h in
    let (task, r2) = append-nil _ _ r1 in
    let (status, r3) = append-nil _ _ r2 in
    let (score, r4) = append-nil _ _ r3 in
    let (metric, r5) = append-nil _ _ r4 in
    let (scores, r6) = append-nil (scores_errors "scores" (get_or_null "scores" p)) _ r5 in
    let (winning, r7) = append-nil _ _ r6 in
    let (artifacts, r8) =
      append-nil (artifacts_errors "artifacts" true (get_or_empty "artifacts" p)) _ r7 in
    let (why, versioned) = append-nil _ (version_errors (get_or_null "result_version" p)) r8 in
    record {
      execution = nonempty_text_errors-IsName "missing evaluation_id" _ execution;
      task = nonempty_text_errors-IsName "missing task_ref" _ task;
      status = status_errors-IsStatus _ status;
      score = score_errors-IsScore "score" _ score;
      metrics = metrics_errors-IsMetrics lib "metrics" _ metric;
      winner = winner_errors-IsWinner "winner" _ winning;
      failure_reason = reason_errors-IsReason _ why;
      scores = scores_errors-IsScores "scores" _ scores;
      artifacts = artifacts_errors-IsArtifacts "artifacts" _ artifacts;
      result_version = version_errors-IsVersion _ versioned;
    }

same_list : (xs ys : List String) → some xs ≡ some ys → xs ≡ ys
same_list xs ys h = cc

-- A payload without errors names its execution and its task, has one of the five statuses, a finite
-- score or none, metrics of finite JSON values of at most a million bytes, at most 64 scores and 32
-- artifacts, each with a name of at most 200 characters and a finite number or an artifact
-- identifier, a named winner or none, a failure reason of at most 2000 characters or none, and the
-- version 1 or none.
pub accepted-IsResult :
    (lib : Platform) (p : Fields) → validate_result_payload lib p ≡ some [] → IsResult lib p
unfolding validate_result_payload
accepted-IsResult lib p h = elim (Bool-cases (hashable (get_or_null "status" p))) [
  | inr unhashable ↦ absurd (ground arith)
  | inl fine ↦ no_errors-IsResult lib p (same_list (result_errors lib p) [] (ground arith))
]
