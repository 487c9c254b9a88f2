-- ===== src/Protocol/Messages.antt =====
-- A validated message is returned unchanged, and framing is undone by decoding.
use brunost_judge.Prelude.{
  ℕ, String, ◌≡◌, ◌≢◌, ◌⊎◌, refl, sym, ap, ◌∙◌, inl, inr, Bool, true, false, Bool-cases, Option,
  none, some, List, [], ◌∷◌, ◌++◌, length, arith, ltb,
}
use brunost_judge.Json.{Json, null, bool, str, num, arr, obj, Fields, get_or_null}
use brunost_judge.Protocol.{
  Check, ProtocolError, unknown_type, wrong_direction, Outcome, raised, passed, ProtocolDirection,
  controller, Codec, value, newline, encode_message, decode_message, loaded_message, framed,
  validate_message, validate_typed, outcome, first_error, is_allowed, is_message_type, body_checks,
  check,
}

outcome-passed : (c : Check) (p q : Fields) → outcome c p ≡ passed q → (q ≡ p) × (c ≡ none)
outcome-passed none p q h = (cc h, refl)
outcome-passed (some e) p q h = absurd (cc h)

check-none :
    (b : Bool) (e : ProtocolError) (cs : List Check)
    → first_error (check b e ∷ cs) ≡ none
    → (b ≡ true) × (first_error cs ≡ none)
unfolding first_error
check-none b e cs h = ground arith

Outcome-cases :
    {A : Type 0} (o : Outcome A)
    → ((e : ProtocolError) × (o ≡ raised e)) ⊎ ((a : A) × (o ≡ passed a))
Outcome-cases (raised e) = inl (e, refl)
Outcome-cases (passed a) = inr (a, refl)

typed-passed :
    (d : ProtocolDirection) (t : String) (p q : Fields)
    → validate_typed d t p ≡ passed q
    → (q ≡ p) × (is_allowed d t ≡ true)
unfolding validate_typed
typed-passed d t p q h =
    let (same, clean) = outcome-passed _ p q h in
    let (known, rest) =
      check-none (is_message_type t) unknown_type
        (check (is_allowed d t) wrong_direction ∷ body_checks t p) clean in
    let (fits, body) = check-none (is_allowed d t) wrong_direction (body_checks t p) rest in
    (same, fits)

-- the type is a text that the sender may use
abbrev pub IsTyped : ProtocolDirection → Json → Type 0
IsTyped d j = (t : String) × (j ≡ str t) × (is_allowed d t ≡ true)

-- A message that passes is returned as it is, unknown fields included, and its type is a text that
-- its sender may use.
passed_message_is_kept :
    (d : ProtocolDirection) (p q : Fields)
    → validate_message d p ≡ passed q
    → (q ≡ p) × IsTyped d (get_or_null "type" p)
unfolding validate_message
passed_message_is_kept d p q h = go (get_or_null "type" p) refl
  where
    go : (j : Json) → get_or_null "type" p ≡ j → (q ≡ p) × IsTyped d (get_or_null "type" p)
    go (str t) e = let (same, fits) = typed-passed d t p q (ground arith) in (same, (t, e, fits))
    go null e = absurd (ground arith)
    go (bool b) e = absurd (ground arith)
    go (num n) e = absurd (ground arith)
    go (arr xs) e = absurd (ground arith)
    go (obj fs) e = absurd (ground arith)

framed-passed :
    (max_bytes : ℕ) (o : Option (List ℕ)) (raw : List ℕ)
    → framed max_bytes o ≡ passed raw
    → (encoded : List ℕ) × (o ≡ some encoded)
      × (raw ≡ encoded ++ newline ∷ [])
      × (ltb max_bytes (length (encoded ++ newline ∷ [])) ≡ false)
unfolding framed
framed-passed max_bytes none raw h = absurd (cc h)
framed-passed max_bytes (some encoded) raw h =
    elim (Bool-cases (ltb max_bytes (length (encoded ++ newline ∷ [])))) [
      | inl large ↦ absurd (ground arith)
      | inr fits ↦ (encoded, refl, ground arith, fits)
    ]

module _ (codec : Codec) (max_bytes : ℕ) (message : Fields)
    (good : validate_message controller message ≡ passed message) where
  encode-framed : encode_message codec max_bytes message ≡ framed max_bytes (codec.dumps message)
  unfolding encode_message
  encode-framed = rw (good, encode_message)

  decode-loaded :
      (raw : List ℕ)
      → ltb max_bytes (length raw) ≡ false
      → codec.loads raw ≡ value (obj message)
      → decode_message codec max_bytes controller raw ≡ passed message
  unfolding decode_message loaded_message
  decode-loaded raw fits loads = rw (fits, loads) good

encode_refused :
    (codec : Codec) (max_bytes : ℕ) (message : Fields) (raw : List ℕ) (e : ProtocolError)
    → validate_message controller message ≡ raised e
    → encode_message codec max_bytes message ≢ passed raw
unfolding encode_message
encode_refused codec max_bytes message raw e bad sent = ground arith

-- What `encode_message` sends within its limit, `decode_message` reads back as the same message,
-- given a JSON library that reads the encoding of the message back when a newline follows.
pub encoded_message_is_decoded :
    (codec : Codec) (max_bytes : ℕ) (message : Fields) (raw : List ℕ)
    → ((encoded : List ℕ)
        → codec.dumps message ≡ some encoded
        → codec.loads (encoded ++ newline ∷ []) ≡ value (obj message))
    → encode_message codec max_bytes message ≡ passed raw
    → decode_message codec max_bytes controller raw ≡ passed message
encoded_message_is_decoded codec max_bytes message raw reads_back sent =
    elim (Outcome-cases (validate_message controller message)) [
      | inl (e, bad) ↦ absurd (encode_refused codec max_bytes message raw e bad sent)
      | inr (p, good) ↦
          let fine : validate_message controller message ≡ passed message =
            good ∙ ap passed (passed_message_is_kept controller message p good).0 in
          let (encoded, dumped, same, fits) =
            framed-passed max_bytes (codec.dumps message) raw
              (sym (encode-framed codec max_bytes message fine) ∙ sent) in
          rw same (
            decode-loaded codec max_bytes message fine (encoded ++ newline ∷ []) fits
              (reads_back encoded dumped))
    ]
