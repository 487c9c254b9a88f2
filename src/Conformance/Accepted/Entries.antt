-- ===== src/Conformance/Accepted/Entries.antt =====
-- The scores and the artifacts of a payload without errors.
use brunost_judge.Prelude.{
  ltb, not, ◌||◌, String, ◌≡◌, ◌≢◌, refl, inl, inr, Bool, true, false, Bool-cases, List, [], ◌∷◌,
  ◌++◌, arith, ◌==◌, eq_iff,
}
use brunost_judge.Json.{end, field, size, Json, null, num, obj, Fields}
use brunost_judge.Text.{text_length, ◌+++◌}
use brunost_judge.Conformance.{
  max_result_scores, max_result_artifacts, names_artifact, score_entry_errors, score_entries_errors,
  artifact_errors, artifact_entries_errors, scores_errors, artifacts_errors, error_if,
  is_finite_number,
}
use brunost_judge.Conformance.Accepted.Shape.{
  IsLabel, SeatScores, no_seats, seat, IsScores, unshared, shared, NamedArtifacts, no_artifacts,
  artifact, IsArtifacts, unkept, kept,
}

pub error_if-nil : (b : Bool) (m : String) → error_if b m ≡ [] → b ≡ false
unfolding error_if
error_if-nil b m h = ground arith

pub append-nil : (xs ys : List String) → xs ++ ys ≡ [] → (xs ≡ []) × (ys ≡ [])
append-nil [] ys h = (refl, h)
append-nil (x ∷ xs) ys h = absurd (cc h)

pub given : (s : String) → (s == "") ≡ false → s ≢ ""
given s h = ground (arith, eq_iff s "")

IsLabel-of : (s : String) → (s == "" || ltb 200 (text_length s)) ≡ false → IsLabel s
IsLabel-of s h = record { present = given s (ground (arith, h)); short = ground (arith, h) }

score_entries-SeatScores :
    (m : String) (fs : Fields) → score_entries_errors m fs ≡ [] → SeatScores fs
unfolding score_entries_errors score_entry_errors
score_entries-SeatScores m end h = no_seats
score_entries-SeatScores m (field s (num n) fs) h =
    let (entry, rest) = append-nil (score_entry_errors m s (num n)) _ h in
    let (label, value) = append-nil (error_if (s == "" || ltb 200 (text_length s)) _) _ entry in
    let fine : not (is_finite_number n) ≡ false = error_if-nil _ _ value in
    seat s n fs (IsLabel-of s (error_if-nil _ _ label)) (ground (arith, fine))
      (score_entries-SeatScores m fs rest)
score_entries-SeatScores m (field s v fs) h =
    let (entry, rest) = append-nil (score_entry_errors m s v) _ h in
    let (label, value) = append-nil (error_if (s == "" || ltb 200 (text_length s)) _) _ entry in
    absurd (ground (arith, error_if-nil true _ value))

pub scores_errors-IsScores : (m : String) (j : Json) → scores_errors m j ≡ [] → IsScores j
unfolding scores_errors
scores_errors-IsScores m null h = unshared
scores_errors-IsScores m (obj fs) h =
    let (few, entries) = append-nil (error_if (ltb max_result_scores (size fs)) _) _ h in
    let small : ltb max_result_scores (size fs) ≡ false = error_if-nil _ _ few in
    shared fs (ground (arith, small)) (score_entries-SeatScores m fs entries)
scores_errors-IsScores m _ h = absurd (cc h)

artifact_entries-NamedArtifacts :
    (m : String) (fs : Fields) → artifact_entries_errors m true fs ≡ [] → NamedArtifacts fs
unfolding artifact_entries_errors artifact_errors
artifact_entries-NamedArtifacts m end h = no_artifacts
artifact_entries-NamedArtifacts m (field s v fs) h =
    let (entry, rest) = append-nil (artifact_errors m true s v) _ h in
    elim (Bool-cases (s == "" || ltb 200 (text_length s))) [
      | inl bad ↦ absurd (ground (arith, bad, entry))
      | inr label ↦
          let named : not (names_artifact v) ≡ false =
            error_if-nil _ (m +++ "." +++ s +++ " must declare an artifact_id")
              (ground (arith, label, entry)) in
          artifact s v fs (IsLabel-of s label) (ground (arith, named))
            (artifact_entries-NamedArtifacts m fs rest)
    ]

pub artifacts_errors-IsArtifacts :
    (m : String) (j : Json) → artifacts_errors m true j ≡ [] → IsArtifacts j
unfolding artifacts_errors
artifacts_errors-IsArtifacts m null h = unkept
artifacts_errors-IsArtifacts m (obj fs) h =
    let (few, entries) = append-nil (error_if (ltb max_result_artifacts (size fs)) _) _ h in
    let small : ltb max_result_artifacts (size fs) ≡ false = error_if-nil _ _ few in
    kept fs (ground (arith, small)) (artifact_entries-NamedArtifacts m fs entries)
artifacts_errors-IsArtifacts m _ h = absurd (cc h)
