-- ===== src/Classic/Words.antt =====
-- The words of an output, as `bytes.split()` in `_check_output` of src/grader/classic.py cuts them out.
use brunost_judge.Prelude.{
  ℕ, ◌≡◌, refl, ap, ◌∙◌, Bool, true, false, ◌&&◌, ◌||◌, Bool-cases, inl, inr, subst, sym, All,
  All-append, List, [], ◌∷◌, ◌++◌, leb, nat_eq, if◌then◌else◌, arith,
}

-- the white space of bytes: tab, newline, vertical tab, form feed, carriage return, space
abbrev pub is_byte_space : ℕ → Bool
is_byte_space c = (leb 9 c && leb c 13) || nat_eq c 32

-- the word that is being read, put in front of the words behind it
abbrev pub close_word : List ℕ → List (List ℕ) → List (List ℕ)
close_word [] ws = ws
close_word (c ∷ cs) ws = (c ∷ cs) ∷ ws

-- `bytes.split()`, with the beginning of the word that is being read
unfoldable pub words_from : List ℕ → List ℕ → List (List ℕ)
words_from word [] = close_word word []
words_from word (c ∷ cs) =
    let behind = words_from [] cs in
    let longer = words_from (word ++ c ∷ []) cs in
    if is_byte_space c then close_word word behind else longer

unfoldable pub split_bytes : List ℕ → List (List ℕ)
unfolding words_from
split_bytes = words_from []

abbrev AllSpaces : List ℕ → Type 0
AllSpaces = All (λ c. is_byte_space c ≡ true)

abbrev AllLetters : List ℕ → Type 0
AllLetters = All (λ c. is_byte_space c ≡ false)

-- the bytes are these words, which are not empty, with white space between them, and perhaps around
pub data Layout : List (List ℕ) → List ℕ → Type 0 where
  blank : (s : List ℕ) → AllSpaces s → Layout [] s
  last :
      (s : List ℕ) (c : ℕ) (w : List ℕ)
      → AllSpaces s
      → AllLetters (c ∷ w)
      → Layout ((c ∷ w) ∷ []) (s ++ c ∷ w)
  next :
      (s : List ℕ) (c : ℕ) (w : List ℕ) (d : ℕ) (ws : List (List ℕ)) (t : List ℕ)
      → AllSpaces s
      → AllLetters (c ∷ w)
      → is_byte_space d ≡ true
      → Layout ws t
      → Layout ((c ∷ w) ∷ ws) (s ++ ((c ∷ w) ++ d ∷ t))

append_nil : (xs : List ℕ) → xs ++ [] ≡ xs
append_nil [] = refl
append_nil (x ∷ xs) = ap (λ ys. x ∷ ys) (append_nil xs)

append_one : (xs : List ℕ) (y : ℕ) (zs : List ℕ) → (xs ++ y ∷ []) ++ zs ≡ xs ++ y ∷ zs
append_one [] y zs = refl
append_one (x ∷ xs) y zs = ap (λ l. x ∷ l) (append_one xs y zs)

words-spaces : (s t : List ℕ) → AllSpaces s → words_from [] (s ++ t) ≡ words_from [] t
unfolding words_from
words-spaces [] t h = refl
words-spaces (c ∷ s) t (h, hs) = ground (arith, h, words-spaces s t hs)

words-letters : (v w t : List ℕ) → AllLetters w → words_from v (w ++ t) ≡ words_from (v ++ w) t
unfolding words_from
words-letters v [] t h = ap (λ u. words_from u t) (sym (append_nil v))
words-letters v (c ∷ w) t (h, hs) =
    rw h (words-letters (v ++ c ∷ []) w t hs) ∙ ap (λ u. words_from u t) (append_one v c w)

words-next :
    (s : List ℕ) (c : ℕ) (w : List ℕ) (d : ℕ) (t : List ℕ)
    → AllSpaces s
    → AllLetters (c ∷ w)
    → is_byte_space d ≡ true
    → words_from [] (s ++ ((c ∷ w) ++ d ∷ t)) ≡ (c ∷ w) ∷ words_from [] t
unfolding words_from
words-next s c w d t hs hw hd =
    let first : words_from [] ((c ∷ w) ++ d ∷ t) ≡ words_from (c ∷ w) (d ∷ t) =
      words-letters [] (c ∷ w) (d ∷ t) hw in
    words-spaces s ((c ∷ w) ++ d ∷ t) hs ∙ first ∙ rw hd refl

pub Layout-split : (ws : List (List ℕ)) (bs : List ℕ) → Layout ws bs → split_bytes bs ≡ ws
unfolding split_bytes words_from
Layout-split _ _ (blank s h) = ap (words_from []) (sym (append_nil s)) ∙ words-spaces s [] h
Layout-split _ _ (last s c w hs hw) =
    words-spaces s (c ∷ w) hs
    ∙ ap (words_from []) (sym (append_nil (c ∷ w)))
    ∙ words-letters [] (c ∷ w) [] hw
Layout-split _ _ (next s c w d ws t hs hw hd rest) =
    words-next s c w d t hs hw hd ∙ ap (λ l. (c ∷ w) ∷ l) (Layout-split ws t rest)

more_space :
    (d : ℕ) (ws : List (List ℕ)) (bs : List ℕ)
    → is_byte_space d ≡ true
    → Layout ws bs
    → Layout ws (d ∷ bs)
more_space d _ _ h (blank s hs) = blank (d ∷ s) (h, hs)
more_space d _ _ h (last s c w hs hw) = last (d ∷ s) c w (h, hs) hw
more_space d _ _ h (next s c w e ws t hs hw he rest) = next (d ∷ s) c w e ws t (h, hs) hw he rest

close-Layout :
    (v : List ℕ) (d : ℕ) (ws : List (List ℕ)) (t : List ℕ)
    → AllLetters v
    → is_byte_space d ≡ true
    → Layout ws t
    → Layout (close_word v ws) (v ++ d ∷ t)
close-Layout [] d ws t hv hd rest = more_space d ws t hd rest
close-Layout (c ∷ w) d ws t hv hd rest = next [] c w d ws t tt hv hd rest

pub split-Layout : (v bs : List ℕ) → AllLetters v → Layout (words_from v bs) (v ++ bs)
unfolding words_from
split-Layout [] [] h = blank [] tt
split-Layout (c ∷ w) [] h =
    subst (Layout ((c ∷ w) ∷ [])) (sym (append_nil (c ∷ w))) (last [] c w tt h)
split-Layout v (d ∷ bs) h = elim (Bool-cases (is_byte_space d)) [
  | inl space ↦ rw space (close-Layout v d (words_from [] bs) bs h space (split-Layout [] bs tt))
  | inr letter ↦ rw letter (
      subst (Layout (words_from (v ++ d ∷ []) bs)) (append_one v d bs) (
        split-Layout (v ++ d ∷ []) bs
          (All-append (λ c. is_byte_space c ≡ false) v (d ∷ []) h (letter, tt))))
]
