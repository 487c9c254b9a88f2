-- ===== src/Quiz/Question.antt =====
-- The questions of an answer key, `_load_config` of src/grader/quiz.py. A question that is refused is
-- `none`, whichever exception it is: each of them fails the run.
use brunost_judge.Prelude.{
  ℕ, ◌*◌, ◌^◌, String, Bool, true, false, not, ◌&&◌, ◌||◌, Option, none, some, List, [], ◌∷◌,
  length, leb, contains, nat_eq, ◌==◌, if◌then◌else◌,
}
use brunost_judge.Prelude.Int.{pos}
use brunost_judge.Json.{
  Num, int, float, Json, null, bool, num, str, arr, obj, Fields, end, field, get, get_or_null,
  item_list,
}
use brunost_judge.Text.{codes, text_length, all_codes}
use brunost_judge.Sql.{order_by}
use brunost_judge.Sql.Order.{text_leb}

abbrev pub max_quiz_questions : ℕ
max_quiz_questions = 500

abbrev pub max_quiz_choices : ℕ
max_quiz_choices = 100

abbrev pub max_quiz_text_chars : ℕ
max_quiz_text_chars = 20000

abbrev pub max_quiz_answer_chars : ℕ
max_quiz_answer_chars = 4096

abbrev pub max_quiz_answers_per_text : ℕ
max_quiz_answers_per_text = 100

abbrev pub max_quiz_submission_bytes : ℕ
max_quiz_submission_bytes = 2 ^ 20

abbrev pub max_quiz_points : ℕ
max_quiz_points = 1000000

-- QUIZ_TYPES
pub data QuestionType : Type 0 where
  single_choice multiple_choice free_text : QuestionType

-- `QuizQuestion`; the points as they are written, and the choices in their order
pub record QuizQuestion : Type 0 where
  pub question_id : String
  pub question_type : QuestionType
  pub points : Num
  pub choices : List String
  pub accepted_answers : List String

abbrev pub is_alphanumeric : ℕ → Bool
is_alphanumeric c =
    (leb b'A' c && leb c b'Z') || (leb b'a' c && leb c b'z') || (leb b'0' c && leb c b'9')

abbrev pub is_id_char : ℕ → Bool
is_id_char c = is_alphanumeric c || nat_eq c b'_' || nat_eq c b'.' || nat_eq c b':' || nat_eq c b'-'

abbrev pub is_id_codes : List ℕ → Bool
is_id_codes [] = false
is_id_codes (c ∷ cs) = is_alphanumeric c && leb (length cs) 63 && all_codes is_id_char cs

-- `_ID_RE.fullmatch`
unfoldable pub is_quiz_id : String → Bool
unfolding all_codes
is_quiz_id s = is_id_codes (codes s)

-- `not (set(raw) - {...})`
unfoldable pub keys_within : List String → Fields → Bool
unfolding contains
keys_within names end = true
keys_within names (field k v fs) = contains k names && keys_within names fs

-- `_text`
unfoldable pub is_text : Json → Bool
is_text (str s) = leb (text_length s) max_quiz_text_chars
is_text _ = false

-- `not "prompt" in raw`, or a prompt that is a text
unfoldable pub prompt_ok : Fields → Bool
unfolding get is_text
prompt_ok raw = elim (get "prompt" raw) [ none ↦ true | some v ↦ is_text v ]

unfoldable pub points_in_range : Num → Bool
points_in_range (int (pos n)) = leb 1 n && leb n max_quiz_points
points_in_range (float (pos m) k) = leb 1 m && leb m (max_quiz_points * 2 ^ k)
points_in_range _ = false

-- `raw.get("points", 1)`, within (0, 1000000]
unfoldable pub points_of : Fields → Option Num
unfolding get points_in_range
points_of raw = elim (get "points" raw) [
  | none ↦ some (int (pos 1))
  | some v ↦ elim v [
    | num n ↦ if points_in_range n then some n else none
    | null ↦ none
    | bool b ↦ none
    | str s ↦ none
    | arr xs ↦ none
    | obj fs ↦ none
  ]
]

-- `raw.get("type")` in QUIZ_TYPES
unfoldable pub type_of : Json → Option QuestionType
type_of (str s) =
    if s == "single_choice"
    then some single_choice
    else if s == "multiple_choice"
    then some multiple_choice
    else if s == "free_text"
    then some free_text
    else none
type_of _ = none

-- a choice with exactly an id and a text
unfoldable pub choice_id : Json → Option String
unfolding get_or_null get keys_within is_quiz_id is_text
choice_id (obj fs) = elim (get_or_null "id" fs) [
  | str i ↦ elim (get "text" fs) [
    | none ↦ none
    | some t ↦
        if keys_within ("id" ∷ "text" ∷ []) fs && is_quiz_id i && is_text t then some i else none
  ]
  | null ↦ none
  | bool b ↦ none
  | num n ↦ none
  | arr xs ↦ none
  | obj gs ↦ none
]
choice_id _ = none

-- the loop over the choices, with the ids that are seen
unfoldable pub choice_ids : List String → List Json → Option (List String)
unfolding choice_id contains
choice_ids seen [] = some []
choice_ids seen (c ∷ cs) = elim (choice_id c) [
  | none ↦ none
  | some i ↦
      let rest = choice_ids (i ∷ seen) cs in
      if contains i seen then none else elim rest [ none ↦ none | some is ↦ some (i ∷ is) ]
]

abbrev pub in_range : ℕ → ℕ → ℕ → Bool
in_range low high n = leb low n && leb n high

-- the choices of a question that has some
unfoldable pub listed_choices : Json → Option (List String)
unfolding item_list choice_ids
listed_choices (arr xs) =
    if in_range 2 max_quiz_choices (length (item_list xs))
    then choice_ids [] (item_list xs)
    else none
listed_choices _ = none

unfoldable pub choices_of : QuestionType → Fields → Option (List String)
unfolding get_or_null get listed_choices
choices_of free_text raw = elim (get "choices" raw) [ none ↦ some [] | some v ↦ none ]
choices_of _ raw = listed_choices (get_or_null "choices" raw)

-- a list whose items are all texts
unfoldable pub texts_of : List Json → Option (List String)
texts_of [] = some []
texts_of (str s ∷ js) = elim (texts_of js) [ none ↦ none | some ts ↦ some (s ∷ ts) ]
texts_of (_ ∷ js) = none

unfoldable pub all_in : List String → List String → Bool
unfolding contains
all_in names [] = true
all_in names (t ∷ ts) = contains t names && all_in names ts

-- `len(set(ts)) == len(ts)`
unfoldable pub all_different : List String → Bool
unfolding contains
all_different [] = true
all_different (t ∷ ts) = not (contains t ts) && all_different ts

-- a non-empty list of at most 100 different choices
unfoldable pub is_choice_list : List String → List String → Bool
unfolding all_in all_different
is_choice_list choices ts =
    in_range 1 max_quiz_choices (length ts) && all_in choices ts && all_different ts

unfoldable pub short_texts : List String → Bool
short_texts [] = true
short_texts (t ∷ ts) = leb (text_length t) max_quiz_answer_chars && short_texts ts

abbrev pub one_choice : List String → Json → Option (List String)
one_choice choices (str s) = if contains s choices then some (s ∷ []) else none
one_choice choices _ = none

abbrev pub several_choices : List String → Json → Option (List String)
several_choices choices (arr xs) = elim (texts_of (item_list xs)) [
  | none ↦ none
  | some ts ↦ if is_choice_list choices ts then some (order_by text_leb ts) else none
]
several_choices choices _ = none

abbrev pub bounded_texts : List String → Option (List String)
bounded_texts ts =
    if in_range 1 max_quiz_answers_per_text (length ts) && short_texts ts then some ts else none

abbrev pub some_texts : Json → Option (List String)
some_texts (str s) = bounded_texts (s ∷ [])
some_texts (arr xs) = elim (texts_of (item_list xs)) [ none ↦ none | some ts ↦ bounded_texts ts ]
some_texts _ = none

-- `raw.get("accepted_answers", raw.get("answer"))`
unfoldable pub text_answers : Fields → Json
unfolding get get_or_null
text_answers raw = elim (get "accepted_answers" raw) [
  | none ↦ get_or_null "answer" raw
  | some v ↦ v
]

-- the answers that are accepted
unfoldable pub accepted_of : QuestionType → List String → Fields → Option (List String)
unfolding get_or_null contains texts_of item_list is_choice_list order_by text_leb short_texts
    text_answers
accepted_of single_choice choices raw = one_choice choices (get_or_null "answer" raw)
accepted_of multiple_choice choices raw = several_choices choices (get_or_null "answer" raw)
accepted_of free_text choices raw = some_texts (text_answers raw)
