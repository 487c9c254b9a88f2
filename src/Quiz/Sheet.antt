-- ===== src/Quiz/Sheet.antt =====
-- The answer sheet of a quiz, in which every answer is right.
use brunost_judge.Prelude.{
  String, ◌≡◌, refl, sym, subst, true, false, some, List, [], ◌∷◌, All, contains, arith, ◌==◌,
  eq_refl,
}
use brunost_judge.Json.{
  Num, Json, null, str, arr, obj, Items, nil, cons, Fields, end, field, get, get_or_null, item_list,
}
use brunost_judge.Quiz.Question.{
  QuizQuestion, QuestionType, single_choice, multiple_choice, free_text, keys_within, texts_of,
  all_in, all_different, short_texts,
}
use brunost_judge.Quiz.Grade.{marked, is_correct, normalized_in, question_ids}
use brunost_judge.Quiz.Valid.{IsQuestion, key_fits}

abbrev pub items_of : List String → Items
items_of [] = nil
items_of (t ∷ ts) = cons (str t) (items_of ts)

abbrev pub first_text : List String → Json
first_text [] = null
first_text (t ∷ ts) = str t

-- the accepted answer of a question, as a submission writes it
abbrev pub key_answer : QuizQuestion → Json
key_answer q = elim q.question_type [
  | single_choice ↦ first_text q.accepted_answers
  | multiple_choice ↦ arr (items_of q.accepted_answers)
  | free_text ↦ first_text q.accepted_answers
]

abbrev pub answer_sheet : List QuizQuestion → Fields
answer_sheet [] = end
answer_sheet (q ∷ qs) = field q.question_id (key_answer q) (answer_sheet qs)

abbrev pub key_submission : List QuizQuestion → Json
key_submission qs = obj (field "answers" (obj (answer_sheet qs)) end)

texts-items : (ts : List String) → texts_of (item_list (items_of ts)) ≡ some ts
unfolding texts_of item_list
texts-items [] = refl
texts-items (t ∷ ts) = ground (arith, texts-items ts)

all_in-more : (y : String) (ys xs : List String) → all_in ys xs ≡ true → all_in (y ∷ ys) xs ≡ true
unfolding all_in contains
all_in-more y ys [] h = refl
all_in-more y ys (x ∷ xs) h = ground (arith, all_in-more y ys xs)

all_in_self : (xs : List String) → all_in xs xs ≡ true
unfolding all_in contains
all_in_self [] = refl
all_in_self (x ∷ xs) = ground (arith, eq_refl x, all_in-more x xs xs (all_in_self xs))

abbrev question : String → Num → List String → QuestionType → List String → QuizQuestion
question i points choices t accepted = record {
  question_id = i;
  question_type = t;
  points = points;
  choices = choices;
  accepted_answers = accepted;
}

-- marked as right, and as answered
abbrev pub IsRight : (String → String) → QuizQuestion → Json → Type 0
IsRight normalize q answer = is_correct normalize q answer ≡ marked true true

module _ (normalize : String → String) (i : String) (points : Num) (choices : List String) where
  key-IsRight :
      (t : QuestionType) (accepted : List String)
      → key_fits t choices accepted ≡ true
      → IsRight normalize
          (question i points choices t accepted)
          (key_answer (question i points choices t accepted))
  unfolding is_correct key_fits normalized_in short_texts
  key-IsRight single_choice [] h = absurd (cc)
  key-IsRight single_choice (x ∷ xs) h = rw (eq_refl x) refl
  key-IsRight multiple_choice accepted h = rw (texts-items accepted, h, all_in_self accepted) refl
  key-IsRight free_text [] h = absurd (cc)
  key-IsRight free_text (x ∷ xs) h = ground (arith, eq_refl (normalize x), h)

get-here : (i : String) (v : Json) (fs : Fields) → get_or_null i (field i v fs) ≡ v
unfolding get_or_null get
get-here i v fs = ground (arith, eq_refl i)

get-behind :
    (i j : String) (v : Json) (fs : Fields)
    → (i == j) ≡ false
    → get_or_null j (field i v fs) ≡ get_or_null j fs
unfolding get_or_null get
get-behind i j v fs h = ground arith

-- every answer of the sheet is right
abbrev pub AllRight : (String → String) → Fields → List QuizQuestion → Type 0
AllRight normalize answers = All (λ q. IsRight normalize q (get_or_null q.question_id answers))

module _ (normalize : String → String) where
  behind-AllRight :
      (i : String) (answer : Json) (answers : Fields) (qs : List QuizQuestion)
      → contains i (question_ids qs) ≡ false
      → AllRight normalize answers qs
      → AllRight normalize (field i answer answers) qs
  unfolding contains
  behind-AllRight i answer answers [] h r = tt
  behind-AllRight i answer answers (q ∷ qs) h r = (
    subst (IsRight normalize q) (sym (get-behind i q.question_id answer answers different)) r.0,
    behind-AllRight i answer answers qs (ground (arith, h)) r.1,
  )
    where
      different : (i == q.question_id) ≡ false
      different = ground (arith, h)

  pub sheet-AllRight :
      (qs : List QuizQuestion)
      → All IsQuestion qs
      → all_different (question_ids qs) ≡ true
      → AllRight normalize (answer_sheet qs) qs
  unfolding all_different
  sheet-AllRight [] v d = tt
  sheet-AllRight (q ∷ qs) v d = (
    subst (IsRight normalize q) (sym (get-here q.question_id (key_answer q) (answer_sheet qs))) (
        key-IsRight normalize q.question_id q.points q.choices q.question_type q.accepted_answers
          v.0.fits),
    behind-AllRight q.question_id (key_answer q) (answer_sheet qs) qs (ground (arith, d))
        (sheet-AllRight qs v.1 (ground (arith, d))),
  )

more_names :
    (n : String) (names : List String) (fs : Fields)
    → keys_within names fs ≡ true
    → keys_within (n ∷ names) fs ≡ true
unfolding keys_within contains
more_names n names end h = refl
more_names n names (field k v fs) h = ground (arith, more_names n names fs)

pub sheet_keys : (qs : List QuizQuestion) → keys_within (question_ids qs) (answer_sheet qs) ≡ true
unfolding keys_within contains
sheet_keys [] = refl
sheet_keys (q ∷ qs) = ground (
  arith,
  eq_refl q.question_id,
  more_names q.question_id (question_ids qs) (answer_sheet qs) (sheet_keys qs),
)
