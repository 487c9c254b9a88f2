-- ===== src/Quiz/Grade.antt =====
-- `_load_config`, `_is_correct` and `run_quiz` of src/grader/quiz.py, for decoded files. The texts'
-- normalization and the arithmetic of floats are parameters.
use brunost_judge.Prelude.{
  ℕ, suc, String, Bool, true, false, not, ◌&&◌, Option, none, some, List, [], ◌∷◌, ◌++◌, length,
  map, leb, contains, nat_eq, ◌==◌, if◌then◌else◌,
}
use brunost_judge.Json.{
  Num, Json, null, bool, num, str, arr, obj, Fields, get, get_or_null, item_list,
}
use brunost_judge.Text.{text_length}
use brunost_judge.Quiz.Question.{
  QuizQuestion, QuestionType, single_choice, multiple_choice, free_text, max_quiz_questions,
  max_quiz_answer_chars, max_quiz_submission_bytes, is_quiz_id, keys_within, prompt_ok, points_of,
  type_of, choices_of, accepted_of, in_range, texts_of, is_choice_list, all_in,
}

abbrev pub question_keys : List String
question_keys = "id" ∷ "type" ∷ "prompt" ∷ "choices" ∷ "points" ∷ "answer" ∷ "accepted_answers" ∷ []

-- the answers of a question whose other fields are read
abbrev pub with_answers :
    String → QuestionType → Num → List String → Option (List String) → Option QuizQuestion
with_answers i t points choices none = none
with_answers i t points choices (some accepted) = some (record {
  question_id = i;
  question_type = t;
  points = points;
  choices = choices;
  accepted_answers = accepted;
})

-- the choices, and then the answers, of a question of that type
abbrev pub with_choices :
    String → QuestionType → Fields → Option Num → Option (List String) → Option QuizQuestion
with_choices i t raw none choices = none
with_choices i t raw (some points) none = none
with_choices i t raw (some points) (some choices) =
    with_answers i t points choices (accepted_of t choices raw)

abbrev pub typed_question : String → Fields → Option QuestionType → Option QuizQuestion
typed_question i raw none = none
typed_question i raw (some t) =
    if prompt_ok raw then with_choices i t raw (points_of raw) (choices_of t raw) else none

abbrev pub named_question : List String → Fields → Json → Option QuizQuestion
named_question seen raw (str i) =
    if is_quiz_id i && not (contains i seen)
    then typed_question i raw (type_of (get_or_null "type" raw))
    else none
named_question seen raw _ = none

-- one question, with the ids of those before it
unfoldable pub question_of : List String → Json → Option QuizQuestion
unfolding keys_within is_quiz_id contains get_or_null type_of prompt_ok points_of choices_of
    accepted_of
question_of seen (obj raw) =
    if keys_within question_keys raw then named_question seen raw (get_or_null "id" raw) else none
question_of seen _ = none

-- the loop over the questions
unfoldable pub questions_of : List String → List Json → Option (List QuizQuestion)
unfolding question_of
questions_of seen [] = some []
questions_of seen (j ∷ js) = elim (question_of seen j) [
  | none ↦ none
  | some q ↦ elim (questions_of (q.question_id ∷ seen) js) [ none ↦ none | some qs ↦ some (q ∷ qs) ]
]

-- the answer key, once `_bounded_json` has read it within its limit
unfoldable pub load_questions : Json → Option (List QuizQuestion)
unfolding keys_within get_or_null item_list questions_of
load_questions (obj payload) =
    if keys_within ("questions" ∷ "title" ∷ "description" ∷ []) payload
    then elim (get_or_null "questions" payload) [
      | arr xs ↦
          if in_range 1 max_quiz_questions (length (item_list xs))
          then questions_of [] (item_list xs)
          else none
      | null ↦ none
      | bool b ↦ none
      | num n ↦ none
      | str s ↦ none
      | obj fs ↦ none
    ]
    else none
load_questions _ = none

-- `_is_correct`: the two Booleans, or the ValueError
pub data Marked : Type 0 where
  refused : Marked
  marked : Bool → Bool → Marked

abbrev pub same_set : List String → List String → Bool
same_set xs ys = all_in ys xs && all_in xs ys

unfoldable pub normalized_in : (String → String) → String → List String → Bool
normalized_in normalize x [] = false
normalized_in normalize x (y ∷ ys) =
    if normalize x == normalize y then true else normalized_in normalize x ys

abbrev pub first_is : String → List String → Bool
first_is x [] = false
first_is x (y ∷ ys) = x == y

abbrev pub mark_choices : QuizQuestion → Option (List String) → Marked
mark_choices q none = refused
mark_choices q (some ts) =
    if is_choice_list q.choices ts then marked (same_set ts q.accepted_answers) true else refused

abbrev pub mark_single : QuizQuestion → Json → Marked
mark_single q (str s) = marked (first_is s q.accepted_answers) true
mark_single q _ = refused

abbrev pub mark_multiple : QuizQuestion → Json → Marked
mark_multiple q (arr xs) = mark_choices q (texts_of (item_list xs))
mark_multiple q _ = refused

abbrev pub mark_text : (String → String) → QuizQuestion → Json → Marked
mark_text normalize q (str s) =
    if leb (text_length s) max_quiz_answer_chars
    then marked (normalized_in normalize s q.accepted_answers) true
    else refused
mark_text normalize q _ = refused

abbrev pub mark_given : (String → String) → QuizQuestion → Json → Marked
mark_given normalize q answer = elim q.question_type [
  | single_choice ↦ mark_single q answer
  | multiple_choice ↦ mark_multiple q answer
  | free_text ↦ mark_text normalize q answer
]

unfoldable pub is_correct : (String → String) → QuizQuestion → Json → Marked
unfolding item_list texts_of is_choice_list all_in normalized_in
is_correct normalize q null = marked false false
is_correct normalize q answer = mark_given normalize q answer

-- the arithmetic of floats
pub record Floats : Type 1 where
  pub Float : Type 0
  pub float : Num → Float
  pub nought : Float
  pub add : Float → Float → Float
  pub total : List Float → Float
  pub is_zero : Float → Bool
  pub ratio : Float → Float → Float
  pub rounded : Float → Float

abbrev pub question_ids : List QuizQuestion → List String
question_ids = map (λ (q : QuizQuestion). q.question_id)

module _ (fl : Floats) where
  -- a row of the metrics
  pub record Row : Type 0 where
    pub question : QuizQuestion
    pub awarded : fl.Float
    pub answered : Bool
    pub correct : Bool

  -- the counters of the loop, and its rows
  pub record Graded : Type 0 where
    pub correct_count : ℕ
    pub answered_count : ℕ
    pub earned : fl.Float
    pub rows : List Row

  -- how the loop ends: a ValueError, with the answers that are counted by then, or the sums
  pub data Loop : Type 0 where
    invalid_after : ℕ → Loop
    graded : Graded → Loop

  abbrev pub count_if : Bool → ℕ → ℕ
  count_if true n = suc n
  count_if false n = n

  -- one round of the loop
  unfoldable pub counted : QuizQuestion → Bool → Bool → Graded → Graded
  counted q correct answered g =
      let awarded = if correct then fl.float q.points else fl.nought in
      record {
        correct_count = count_if correct g.correct_count;
        answered_count = count_if answered g.answered_count;
        earned = fl.add g.earned awarded;
        rows =
            g.rows
            ++ record { question = q; awarded = awarded; answered = answered; correct = correct }
              ∷ [];
      }

  unfoldable pub grade_from : (String → String) → Fields → List QuizQuestion → Graded → Loop
  unfolding is_correct get_or_null counted
  grade_from normalize answers [] g = graded g
  grade_from normalize answers (q ∷ qs) g =
      elim (is_correct normalize q (get_or_null q.question_id answers)) [
        | refused ↦ invalid_after g.answered_count
        | marked correct answered ↦ grade_from normalize answers qs (counted q correct answered g)
      ]

  -- the result: an invalid submission, or the score with its metrics
  pub data Outcome : Type 0 where
    invalid_submission : ℕ → Outcome
    completed : fl.Float → Bool → Graded → Outcome

  abbrev pub nothing_yet : Graded
  nothing_yet = record { correct_count = 0; answered_count = 0; earned = fl.nought; rows = [] }

  -- the end of `run_quiz`: the flag says that every question is correct
  unfoldable pub scored : Bool → List QuizQuestion → Loop → Outcome
  scored all_or_nothing qs (invalid_after n) = invalid_submission n
  scored all_or_nothing qs (graded g) =
      let available = fl.total (map (λ (q : QuizQuestion). fl.float q.points) qs) in
      let all_correct = nat_eq g.correct_count (length qs) in
      let earned = if all_or_nothing && not all_correct then fl.nought else g.earned in
      completed (fl.rounded (if fl.is_zero available then fl.nought else fl.ratio earned available))
        all_correct (record g { earned = earned })

  -- the submission that is read: an object with exactly one object `answers`, on known questions
  unfoldable pub answers_of : List QuizQuestion → Json → Option Fields
  unfolding get keys_within
  answers_of qs (obj payload) = elim (get "answers" payload) [
    | none ↦ none
    | some v ↦ elim v [
      | obj answers ↦
          if keys_within ("answers" ∷ []) payload && keys_within (question_ids qs) answers
          then some answers
          else none
      | null ↦ none
      | bool b ↦ none
      | num n ↦ none
      | str s ↦ none
      | arr xs ↦ none
    ]
  ]
  answers_of qs _ = none

  -- `run_quiz`, once the files are decoded; `size` is that of the submission file, which `_bounded_json`
  -- refuses above the limit
  unfoldable pub run_quiz : (String → String) → Bool → List QuizQuestion → ℕ → Json → Outcome
  unfolding answers_of grade_from scored
  run_quiz normalize all_or_nothing qs size payload =
      if leb size max_quiz_submission_bytes
      then elim (answers_of qs payload) [
        | none ↦ invalid_submission 0
        | some answers ↦ scored all_or_nothing qs (grade_from normalize answers qs nothing_yet)
      ]
      else invalid_submission 0
