-- ===== src/Quiz/Loaded.antt =====
-- An answer key that loads holds a quiz: the loop over its questions.
use brunost_judge.Prelude.{
  ℕ, suc, ◌≤◌, String, ◌≡◌, refl, ap, subst, inl, inr, Bool, true, false, not, ◌&&◌, Bool-cases,
  none, some, Option-cases, List, [], ◌∷◌, All, length, contains, arith, if◌then◌else◌,
}
use brunost_judge.Json.{Json, null, bool, num, str, arr, obj, get_or_null, item_list}
use brunost_judge.Quiz.Question.{
  QuizQuestion, max_quiz_questions, keys_within, in_range, all_different,
}
use brunost_judge.Quiz.Grade.{question_of, questions_of, load_questions, question_ids}
use brunost_judge.Quiz.Valid.{IsQuestion, same_test, question-IsNew}

abbrev are_new : List String → List QuizQuestion → Bool
are_new seen [] = true
are_new seen (q ∷ qs) = not (contains q.question_id seen) && are_new seen qs

new-split :
    (i : String) (seen : List String) (qs : List QuizQuestion)
    → are_new (i ∷ seen) qs ≡ true
    → (contains i (question_ids qs) ≡ false) × (are_new seen qs ≡ true)
unfolding contains
new-split i seen [] h = (refl, refl)
new-split i seen (q ∷ qs) h = ground (arith, new-split i seen qs, same_test i q.question_id)

-- the questions that follow those of `seen`
record IsLoaded (seen : List String) (n : ℕ) (qs : List QuizQuestion) : Type 0 where
  questions : All IsQuestion qs
  different : all_different (question_ids qs) ≡ true
  new : are_new seen qs ≡ true
  count : length qs ≡ n

questions-IsLoaded :
    (js : List Json) (seen : List String) (qs : List QuizQuestion)
    → questions_of seen js ≡ some qs
    → IsLoaded seen (length js) qs
unfolding questions_of all_different
questions-IsLoaded [] seen qs h =
    let same : [] ≡ qs = ground (arith, h) in
    let empty : IsLoaded seen 0 [] = record {
      questions = tt;
      different = refl;
      new = refl;
      count = refl;
    } in
    subst (IsLoaded seen 0) same empty
questions-IsLoaded (j ∷ js) seen qs h = elim (Option-cases (question_of seen j)) [
  | inl bad ↦ absurd (ground (arith, bad, h))
  | inr (q, fine) ↦ elim (Option-cases (questions_of (q.question_id ∷ seen) js)) [
    | inl bad ↦ absurd (ground (arith, fine, bad, h))
    | inr (rest, more) ↦
        let same : q ∷ rest ≡ qs = ground (arith, fine, more, h) in
        let here = question-IsNew seen j q fine in
        let later = questions-IsLoaded js (q.question_id ∷ seen) rest more in
        let split = new-split q.question_id seen rest later.new in
        let all_of_them : IsLoaded seen (suc (length js)) (q ∷ rest) = record {
          questions = (here.0, later.questions);
          different = ground (arith, split.0, later.different);
          new = ground (arith, here.1, split.1);
          count = ap suc later.count;
        } in
        subst (IsLoaded seen (suc (length js))) same all_of_them
  ]
]

-- a quiz as the answer key of a task holds it
pub record IsQuiz (qs : List QuizQuestion) : Type 0 where
  pub questions : All IsQuestion qs
  pub different : all_different (question_ids qs) ≡ true
  pub some_question : 1 ≤ length qs
  pub bounded : length qs ≤ max_quiz_questions

items-IsQuiz :
    (js : List Json) (qs : List QuizQuestion)
    → (if in_range 1 max_quiz_questions (length js) then questions_of [] js else none) ≡ some qs
    → IsQuiz qs
items-IsQuiz js qs h = elim (Bool-cases (in_range 1 max_quiz_questions (length js))) [
  | inr bad ↦ absurd (ground (arith, bad, h))
  | inl fine ↦
      let l = questions-IsLoaded js [] qs (ground (arith, fine, h)) in
      record {
        questions = l.questions;
        different = l.different;
        some_question = ground (arith, fine, l.count);
        bounded = ground (arith, fine, l.count);
      }
]

-- An answer key that loads holds between 1 and 500 questions with different, safe ids; the accepted
-- answers of each fit its type: one of its choices, a list of different choices, or short texts.
pub loaded-IsQuiz :
    (payload : Json) (qs : List QuizQuestion) → load_questions payload ≡ some qs → IsQuiz qs
unfolding load_questions
loaded-IsQuiz (obj payload) qs h =
    elim (Bool-cases (keys_within ("questions" ∷ "title" ∷ "description" ∷ []) payload)) [
      | inr bad ↦ absurd (ground (arith, bad, h))
      | inl fine ↦ listed (get_or_null "questions" payload) (ground (arith, fine, h))
    ]
  where
    listed :
        (j : Json)
        → elim j [
          | arr xs ↦
              if in_range 1 max_quiz_questions (length (item_list xs))
              then questions_of [] (item_list xs)
              else none
          | null ↦ none
          | bool b ↦ none
          | num n ↦ none
          | str s ↦ none
          | obj fs ↦ none
        ]
          ≡ some qs
        → IsQuiz qs
    listed (arr xs) e = items-IsQuiz (item_list xs) qs e
    listed _ e = absurd (cc)
loaded-IsQuiz _ qs h = absurd (cc)
