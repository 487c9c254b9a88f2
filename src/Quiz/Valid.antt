-- ===== src/Quiz/Valid.antt =====
-- A question that is read is well-formed: its id is safe and new, and its accepted answers fit its
-- type.
use brunost_judge.Prelude.{
  String, ◌≡◌, refl, ap, ◌∙◌, subst, inl, inr, Bool, true, false, not, ◌&&◌, Bool-cases, Option,
  none, some, Option-cases, List, [], ◌∷◌, length, contains, nat_eq, arith, ◌==◌, eq_iff,
}
use brunost_judge.Json.{Num, Json, str, arr, obj, Fields, get_or_null, item_list}
use brunost_judge.Sql.{insert_by, order_by}
use brunost_judge.Sql.Order.{text_leb}
use brunost_judge.Sql.Texts.{contains-insert, contains-order, length-order}
use brunost_judge.Quiz.Question.{
  QuizQuestion, QuestionType, single_choice, multiple_choice, free_text, max_quiz_answers_per_text,
  is_quiz_id, prompt_ok, points_of, type_of, choices_of, accepted_of, in_range, texts_of,
  is_choice_list, all_in, all_different, short_texts, one_choice, several_choices, some_texts,
  bounded_texts, text_answers,
}
use brunost_judge.Quiz.Grade.{question_of, named_question, typed_question, with_choices}

pub same_test : (x y : String) → (x == y) ≡ (y == x)
same_test x y = ground (arith, eq_iff x y, eq_iff y x)

all_in-insert :
    (names : List String) (y : String) (ys : List String)
    → all_in names (insert_by text_leb y ys) ≡ all_in names (y ∷ ys)
unfolding insert_by all_in
all_in-insert names y [] = refl
all_in-insert names y (z ∷ ys) = ground (arith, all_in-insert names y ys)

all_in-order : (names ys : List String) → all_in names (order_by text_leb ys) ≡ all_in names ys
unfolding order_by all_in
all_in-order names [] = refl
all_in-order names (y ∷ ys) =
    all_in-insert names y (order_by text_leb ys)
    ∙ ap (λ b. contains y names && b) (all_in-order names ys)

all_different-insert :
    (y : String) (ys : List String)
    → all_different (insert_by text_leb y ys) ≡ all_different (y ∷ ys)
unfolding insert_by all_different contains
all_different-insert y [] = refl
all_different-insert y (z ∷ ys) =
    ground (arith, all_different-insert y ys, contains-insert text_leb z y ys, same_test y z)

all_different-order : (ys : List String) → all_different (order_by text_leb ys) ≡ all_different ys
unfolding order_by all_different
all_different-order [] = refl
all_different-order (y ∷ ys) =
    all_different-insert y (order_by text_leb ys)
    ∙ rw (contains-order text_leb y ys, all_different-order ys) refl

is_choice_list-order :
    (choices ys : List String)
    → is_choice_list choices (order_by text_leb ys) ≡ is_choice_list choices ys
unfolding is_choice_list
is_choice_list-order choices ys =
    rw (length-order text_leb ys, all_in-order choices ys, all_different-order ys) refl

-- the accepted answers of a question fit its type
unfoldable pub key_fits : QuestionType → List String → List String → Bool
unfolding is_choice_list short_texts contains
key_fits single_choice choices [] = false
key_fits single_choice choices (x ∷ xs) = contains x choices && nat_eq (length xs) 0
key_fits multiple_choice choices xs = is_choice_list choices xs
key_fits free_text choices xs = in_range 1 max_quiz_answers_per_text (length xs) && short_texts xs

pub record IsQuestion (q : QuizQuestion) : Type 0 where
  pub safe_id : is_quiz_id q.question_id ≡ true
  pub fits : key_fits q.question_type q.choices q.accepted_answers ≡ true

abbrev Fits : QuestionType → List String → List String → Type 0
Fits t choices accepted = key_fits t choices accepted ≡ true

bounded-Fits :
    (choices ts accepted : List String)
    → bounded_texts ts ≡ some accepted
    → Fits free_text choices accepted
unfolding key_fits
bounded-Fits choices ts accepted h =
    elim (Bool-cases (in_range 1 max_quiz_answers_per_text (length ts) && short_texts ts)) [
      | inl fits ↦
          let same : ts ≡ accepted = ground (arith, fits, h) in
          subst (Fits free_text choices) same fits
      | inr bad ↦ absurd (ground (arith, bad, h))
    ]

single-Fits :
    (choices accepted : List String) (j : Json)
    → one_choice choices j ≡ some accepted
    → Fits single_choice choices accepted
unfolding key_fits
single-Fits choices accepted (str s) h = elim (Bool-cases (contains s choices)) [
  | inl known ↦
      let same : s ∷ [] ≡ accepted = ground (arith, known, h) in
      subst (Fits single_choice choices) same (rw known refl)
  | inr unknown ↦ absurd (ground (arith, unknown, h))
]
single-Fits choices accepted _ h = absurd (cc)

several-Fits :
    (choices accepted : List String) (j : Json)
    → several_choices choices j ≡ some accepted
    → Fits multiple_choice choices accepted
unfolding key_fits
several-Fits choices accepted (arr xs) h = elim (Option-cases (texts_of (item_list xs))) [
  | inl other ↦ absurd (ground (arith, other, h))
  | inr (ts, texts) ↦ elim (Bool-cases (is_choice_list choices ts)) [
    | inl fits ↦
        let same : order_by text_leb ts ≡ accepted = ground (arith, texts, fits, h) in
        subst (Fits multiple_choice choices) same (is_choice_list-order choices ts ∙ fits)
    | inr bad ↦ absurd (ground (arith, texts, bad, h))
  ]
]
several-Fits choices accepted _ h = absurd (cc)

texts_fit :
    (choices accepted : List String) (j : Json)
    → some_texts j ≡ some accepted
    → Fits free_text choices accepted
texts_fit choices accepted (str s) h = bounded-Fits choices (s ∷ []) accepted h
texts_fit choices accepted (arr xs) h = elim (Option-cases (texts_of (item_list xs))) [
  | inl other ↦ absurd (ground (arith, other, h))
  | inr (ts, texts) ↦ bounded-Fits choices ts accepted (ground (arith, texts, h))
]
texts_fit choices accepted _ h = absurd (cc)

accepted-Fits :
    (t : QuestionType) (choices accepted : List String) (raw : Fields)
    → accepted_of t choices raw ≡ some accepted
    → Fits t choices accepted
unfolding accepted_of
accepted-Fits single_choice choices accepted raw h =
    single-Fits choices accepted (get_or_null "answer" raw) h
accepted-Fits multiple_choice choices accepted raw h =
    several-Fits choices accepted (get_or_null "answer" raw) h
accepted-Fits free_text choices accepted raw h = texts_fit choices accepted (text_answers raw) h

-- a question of that id, which is safe and new
abbrev pub IsNew : List String → QuizQuestion → Type 0
IsNew seen q = IsQuestion q × (contains q.question_id seen ≡ false)

module _ (seen : List String) (i : String) (raw : Fields) (safe : is_quiz_id i ≡ true)
    (new : contains i seen ≡ false) where
  choices-IsNew :
      (t : QuestionType) (points : Option Num) (choices : Option (List String)) (q : QuizQuestion)
      → with_choices i t raw points choices ≡ some q
      → IsNew seen q
  choices-IsNew t none choices q h = absurd (cc)
  choices-IsNew t (some points) none q h = absurd (cc)
  choices-IsNew t (some points) (some choices) q h =
      elim (Option-cases (accepted_of t choices raw)) [
        | inl bad ↦ absurd (ground (arith, bad, h))
        | inr (accepted, fine) ↦
            let r : QuizQuestion = record {
              question_id = i;
              question_type = t;
              points = points;
              choices = choices;
              accepted_answers = accepted;
            } in
            let same : r ≡ q = ground (arith, fine, h) in
            let fit : IsQuestion r = record {
              safe_id = safe;
              fits = accepted-Fits t choices accepted raw fine;
            } in
            subst (IsNew seen) same (fit, new)
      ]

  typed-IsNew :
      (t : Option QuestionType) (q : QuizQuestion) → typed_question i raw t ≡ some q → IsNew seen q
  typed-IsNew none q h = absurd (cc)
  typed-IsNew (some t) q h = elim (Bool-cases (prompt_ok raw)) [
    | inl fine ↦ choices-IsNew t (points_of raw) (choices_of t raw) q (ground (arith, fine, h))
    | inr bad ↦ absurd (ground (arith, bad, h))
  ]

named-IsNew :
    (seen : List String) (raw : Fields) (j : Json) (q : QuizQuestion)
    → named_question seen raw j ≡ some q
    → IsNew seen q
named-IsNew seen raw (str i) q h = elim (Bool-cases (is_quiz_id i && not (contains i seen))) [
  | inl fine ↦
      typed-IsNew seen i raw (ground (arith, fine)) (ground (arith, fine))
        (type_of (get_or_null "type" raw)) q (ground (arith, fine, h))
  | inr bad ↦ absurd (ground (arith, bad, h))
]
named-IsNew seen raw _ q h = absurd (cc)

pub question-IsNew :
    (seen : List String) (j : Json) (q : QuizQuestion) → question_of seen j ≡ some q → IsNew seen q
unfolding question_of
question-IsNew seen (obj raw) q h =
    named-IsNew seen raw (get_or_null "id" raw) q (ground (arith, h))
question-IsNew seen _ q h = absurd (cc)
