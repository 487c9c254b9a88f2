-- ===== src/Quiz/Tests.antt =====
-- A quiz of two questions.
use brunost_judge.Prelude.{arith, ℕ, ◌+◌, String, ◌≡◌, refl, true, false, some, List, [], ◌∷◌}
use brunost_judge.Prelude.Int.{pos}
use brunost_judge.Json.{Num, int, Json, num, str, arr, obj, nil, cons, end, field}
use brunost_judge.Quiz.Question.{QuizQuestion, multiple_choice, free_text}
use brunost_judge.Quiz.Grade.{Floats, load_questions, run_quiz, invalid_submission}
use brunost_judge.Quiz.Loaded.{IsQuiz, loaded-IsQuiz}
use brunost_judge.Quiz.Sheet.{key_submission}
use brunost_judge.Quiz.Key.{IsPerfect, key-IsPerfect}

abbrev choice : String → Json
choice i = obj (field "id" (str i) (field "text" (str i) end))

abbrev payload : Json
payload = obj (
    field "questions"
      (arr (
        cons
          (obj (
            field "id" (str "q1") (
              field "type" (str "multiple_choice") (
                field "points" (num (int (pos 3))) (
                  field "choices"
                    (arr (cons (choice "a") (cons (choice "b") (cons (choice "c") nil))))
                    (field "answer" (arr (cons (str "c") (cons (str "a") nil))) end))))))
          (cons
            (obj (
              field "id" (str "q2")
                (field "type" (str "free_text") (field "answer" (str "42") end))))
            nil)))
      end)

abbrev questions : List QuizQuestion
questions =
    record {
      question_id = "q1";
      question_type = multiple_choice;
      points = int (pos 3);
      choices = "a" ∷ "b" ∷ "c" ∷ [];
      accepted_answers = "a" ∷ "c" ∷ [];
    }
    ∷ record {
      question_id = "q2";
      question_type = free_text;
      points = int (pos 1);
      choices = [];
      accepted_answers = "42" ∷ [];
    }
    ∷ []

loads : load_questions payload ≡ some questions
unfolding load_questions
loads = refl

loaded-IsQuiz_example : IsQuiz questions
loaded-IsQuiz_example = loaded-IsQuiz payload questions loads

-- whole points
abbrev whole : Num → ℕ
whole (int (pos n)) = n
whole _ = 0

abbrev sum : List ℕ → ℕ
sum [] = 0
sum (x ∷ xs) = x + sum xs

abbrev points : Floats
points = record {
  Float = ℕ;
  float = whole;
  nought = 0;
  add = λ a b. a + b;
  total = sum;
  is_zero = λ a. false;
  ratio = λ a b. a;
  rounded = λ a. a;
}

key-IsPerfect_example :
    IsPerfect points
      (λ t. t)
      questions
      (run_quiz points (λ t. t) true questions 300 (key_submission questions))
key-IsPerfect_example = key-IsPerfect points (λ t. t) payload questions true 300 (omega arith) loads

-- an unknown question is refused
unknown_question :
    run_quiz points
      (λ t. t)
      true
      questions
      40
      (obj (field "answers" (obj (field "q9" (str "42") end)) end))
    ≡ invalid_submission 0
unfolding run_quiz
unknown_question = refl
