-- ===== src/Quiz/Key.antt =====
-- The answer key of a quiz, handed in as a submission, gets every question right.
use brunost_judge.Prelude.{
  ℕ, ◌≤◌, le→leb, suc, ◌+◌, String, ◌≡◌, refl, ap, ◌∙◌, Bool, true, false, none, some, List, [],
  ◌∷◌, map, length, nat_eq, arith, if◌then◌else◌,
}
use brunost_judge.Json.{Json, Fields, get}
use brunost_judge.Quiz.Question.{QuizQuestion, keys_within, max_quiz_submission_bytes}
use brunost_judge.Quiz.Grade.{
  load_questions, Floats, Graded, Loop, graded, counted, grade_from, nothing_yet, Outcome,
  completed, scored, answers_of, run_quiz,
}
use brunost_judge.Quiz.Loaded.{loaded-IsQuiz}
use brunost_judge.Quiz.Sheet.{AllRight, answer_sheet, key_submission, sheet_keys, sheet-AllRight}

module _ (fl : Floats) (normalize : String → String) where
  -- the points of all questions, added in their order
  abbrev pub add_all : fl.Float → List QuizQuestion → fl.Float
  add_all e [] = e
  add_all e (q ∷ qs) = add_all (fl.add e (fl.float q.points)) qs

  -- the loop ends with every question counted
  record IsFull (qs : List QuizQuestion) (g : Graded fl) (l : Loop fl) : Type 0 where
    sums : Graded fl
    ended : l ≡ graded sums
    correct : sums.correct_count ≡ g.correct_count + length qs
    answered : sums.answered_count ≡ g.answered_count + length qs
    earned : sums.earned ≡ add_all g.earned qs

  grade-IsFull :
      (answers : Fields) (qs : List QuizQuestion) (g : Graded fl)
      → AllRight normalize answers qs
      → IsFull qs g (grade_from fl normalize answers qs g)
  unfolding grade_from counted
  grade-IsFull answers [] g r = record {
    sums = g;
    ended = refl;
    correct = omega arith;
    answered = omega arith;
    earned = refl;
  }
  grade-IsFull answers (q ∷ qs) g r =
      let ih = grade-IsFull answers qs (counted fl q true true g) r.1 in
      let right : ih.sums.correct_count ≡ suc g.correct_count + length qs = ih.correct in
      let given : ih.sums.answered_count ≡ suc g.answered_count + length qs = ih.answered in
      record {
        sums = ih.sums;
        ended = rw (r.0, grade_from) ih.ended;
        correct = omega (arith, right);
        answered = omega (arith, given);
        earned = ih.earned;
      }

  -- the whole submission
  pub record IsPerfect (qs : List QuizQuestion) (o : Outcome fl) : Type 0 where
    pub score : fl.Float
    pub sums : Graded fl
    pub outcome : o ≡ completed score true sums
    pub correct : sums.correct_count ≡ length qs
    pub answered : sums.answered_count ≡ length qs
    pub earned : sums.earned ≡ add_all fl.nought qs

  sheet_is_read :
      (qs : List QuizQuestion) → answers_of fl qs (key_submission qs) ≡ some (answer_sheet qs)
  unfolding answers_of get keys_within
  sheet_is_read qs = rw (sheet_keys qs) refl

  -- the score of full marks
  abbrev full_score : List QuizQuestion → fl.Float → fl.Float
  full_score qs e =
      let available = fl.total (map (λ (q : QuizQuestion). fl.float q.points) qs) in
      fl.rounded (if fl.is_zero available then fl.nought else fl.ratio e available)

  scored_full :
      (all_or_nothing : Bool) (qs : List QuizQuestion) (sums : Graded fl)
      → nat_eq sums.correct_count (length qs) ≡ true
      → scored fl all_or_nothing qs (graded sums) ≡ completed (full_score qs sums.earned) true sums
  unfolding scored
  scored_full true qs sums all_right = rw all_right refl
  scored_full false qs sums all_right = rw all_right refl

  -- For an answer key that loads, the submission of its accepted answers, in a file of at most 1 MiB,
  -- completes with every question answered and right, and earns the points of all, in either scoring
  -- mode.
  pub key-IsPerfect :
      (payload : Json) (qs : List QuizQuestion) (all_or_nothing : Bool) (size : ℕ)
      → size ≤ max_quiz_submission_bytes
      → load_questions payload ≡ some qs
      → IsPerfect qs (run_quiz fl normalize all_or_nothing qs size (key_submission qs))
  unfolding run_quiz
  key-IsPerfect payload qs all_or_nothing size small h =
      let quiz = loaded-IsQuiz payload qs h in
      let full =
        grade-IsFull (answer_sheet qs) qs (nothing_yet fl)
          (sheet-AllRight normalize qs quiz.questions quiz.different) in
      let right : full.sums.correct_count ≡ length qs = omega (arith, full.correct) in
      let given : full.sums.answered_count ≡ length qs = omega (arith, full.answered) in
      record {
        score = full_score qs full.sums.earned;
        sums = full.sums;
        outcome = rw (le→leb size max_quiz_submission_bytes small) (
            ap
              (λ o. elim o [
                | none ↦ Outcome.invalid_submission 0
                | some answers ↦
                    scored fl all_or_nothing qs
                      (grade_from fl normalize answers qs (nothing_yet fl))
              ])
              (sheet_is_read qs)
            ∙ ap (scored fl all_or_nothing qs) full.ended
            ∙ scored_full all_or_nothing qs full.sums (ground (arith, right)));
        correct = right;
        answered = given;
        earned = full.earned;
      }
