-- ===== src/Classic/Answers.antt =====
-- The check of an output without `checker.py`: white space does not count, and nothing else is let
-- through.
use brunost_judge.Prelude.{
  ℕ, ◌≡◌, ◌↔◌, refl, sym, ◌∙◌, subst, inl, inr, true, Bool-cases, none, some, List, [], ◌∷◌, arith,
}
use brunost_judge.Classic.Words.{Layout, split_bytes, Layout-split, split-Layout}
use brunost_judge.Classic.Checker.{TestCase, Texts, same_bytes, same_words, check_output}

same_bytes-eq : (cs ds : List ℕ) → same_bytes cs ds ≡ true → cs ≡ ds
unfolding same_bytes
same_bytes-eq [] [] h = refl
same_bytes-eq [] (d ∷ ds) h = absurd (cc)
same_bytes-eq (c ∷ cs) [] h = absurd (cc)
same_bytes-eq (c ∷ cs) (d ∷ ds) h =
    let first : c ≡ d = ground (arith, h) in
    let rest = same_bytes-eq cs ds (ground (arith, h)) in cc

same_bytes_refl : (cs : List ℕ) → same_bytes cs cs ≡ true
unfolding same_bytes
same_bytes_refl [] = refl
same_bytes_refl (c ∷ cs) = ground (arith, same_bytes_refl cs)

same_words-eq : (ws vs : List (List ℕ)) → same_words ws vs ≡ true → ws ≡ vs
unfolding same_words
same_words-eq [] [] h = refl
same_words-eq [] (v ∷ vs) h = absurd (cc)
same_words-eq (w ∷ ws) [] h = absurd (cc)
same_words-eq (w ∷ ws) (v ∷ vs) h =
    let first = same_bytes-eq w v (ground (arith, h)) in
    let rest = same_words-eq ws vs (ground (arith, h)) in cc

same_words_refl : (ws : List (List ℕ)) → same_words ws ws ≡ true
unfolding same_words
same_words_refl [] = refl
same_words_refl (w ∷ ws) = ground (arith, same_bytes_refl w, same_words_refl ws)

accepted-words :
    (t : Texts) (c : TestCase) (answer output : List ℕ)
    → c.answer ≡ some answer
    → check_output t none c output ≡ some (true, "")
    → split_bytes output ≡ split_bytes answer
unfolding check_output
accepted-words t c answer output given h =
    elim (Bool-cases (same_words (split_bytes output) (split_bytes answer))) [
      | inl same ↦ same_words-eq (split_bytes output) (split_bytes answer) same
      | inr other ↦ absurd (ground (arith, given, other, h))
    ]

words-accepted :
    (t : Texts) (c : TestCase) (answer output : List ℕ)
    → c.answer ≡ some answer
    → split_bytes output ≡ split_bytes answer
    → check_output t none c output ≡ some (true, "")
unfolding check_output
words-accepted t c answer output given same =
    let fits : same_words (split_bytes output) (split_bytes answer) ≡ true =
      rw same (same_words_refl (split_bytes answer)) in
    rw given (rw fits refl)

bytes-Layout : (bs : List ℕ) → Layout (split_bytes bs) bs
unfolding split_bytes
bytes-Layout bs = split-Layout [] bs tt

-- Without a checker, an output is accepted exactly if it consists of the words of the answer in their
-- order, with any white space between and around them.
pub accepted_iff_Layout :
    (t : Texts) (c : TestCase) (answer output : List ℕ) (ws : List (List ℕ))
    → c.answer ≡ some answer
    → Layout ws answer
    → (check_output t none c output ≡ some (true, "")) ↔ Layout ws output
accepted_iff_Layout t c answer output ws given laid =
    let words = Layout-split ws answer laid in
    (
      λ h.
          subst (λ l. Layout l output) (accepted-words t c answer output given h ∙ words)
            (bytes-Layout output),
      λ l. words-accepted t c answer output given (Layout-split ws output l ∙ sym words),
    )
