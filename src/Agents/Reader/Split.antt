-- ===== src/Agents/Reader/Split.antt =====
-- However the stream of an agent is cut into chunks, the same line is read.
use mathlib.Core.List.{append_assoc, append-nil}
use brunost_judge.Prelude.{
  ℕ, ◌≤◌, ◌<◌, ◌≡◌, refl, sym, ap, ◌∙◌, inl, inr, Option, none, some, List, [], ◌∷◌, ◌++◌, All,
  length, length-append, Option-cases, Bool-cases, nat_eq, arith,
}
use brunost_judge.Protocol.{Codec}
use brunost_judge.Agents.Reader.{
  AgentError, Round, readable, split_line, decoded, received, read_message,
}

-- a round in time that reads some bytes
pub record IsDelivery (deadline : ℕ) (r : Round) : Type 0 where
  pub bytes : List ℕ
  pub in_time : r.clock < deadline
  pub alive : r.exit_code ≡ none
  pub selected : r.selected ≡ readable
  pub chunk : r.chunk ≡ some bytes
  pub nonempty : 1 ≤ length bytes

abbrev bytes_of : Option (List ℕ) → List ℕ
bytes_of none = []
bytes_of (some bytes) = bytes

-- the buffer, and behind it all that is still to be read
abbrev pub stream : List ℕ → List Round → List ℕ
stream buffer [] = buffer
stream buffer (r ∷ rs) = stream (buffer ++ bytes_of r.chunk) rs

split-append :
    (xs ys line behind : List ℕ)
    → split_line xs ≡ some (line, behind)
    → split_line (xs ++ ys) ≡ some (line, behind ++ ys)
unfolding split_line
split-append [] ys line behind h = absurd (cc)
split-append (x ∷ xs) ys line behind h = elim (Bool-cases (nat_eq x b'\n')) [
  | inl newline ↦ ground arith
  | inr other ↦ elim (Option-cases (split_line xs)) [
    | inl none_left ↦ absurd (ground arith)
    | inr (p, found) ↦ ground (arith, split-append xs ys p.0 p.1 found)
  ]
]

stream-append : (xs ys : List ℕ) (rs : List Round) → stream (xs ++ ys) rs ≡ xs ++ stream ys rs
stream-append xs ys [] = refl
stream-append xs ys (r ∷ rs) =
    ap (λ b. stream b rs) (append_assoc xs ys (bytes_of r.chunk))
    ∙ stream-append xs (ys ++ bytes_of r.chunk) rs

stream_whole : (xs : List ℕ) (rs : List Round) → stream xs rs ≡ xs ++ stream [] rs
stream_whole xs rs = ap (λ b. stream b rs) (sym (append-nil xs)) ∙ stream-append xs [] rs

received_bytes :
    (max_bytes deadline : ℕ) (buffer bytes : List ℕ) (r : Round)
    → r.clock < deadline
    → r.exit_code ≡ none
    → r.selected ≡ readable
    → r.chunk ≡ some bytes
    → 1 ≤ length bytes
    → length (buffer ++ bytes_of r.chunk) ≤ max_bytes
    → received max_bytes deadline buffer r ≡ (none, buffer ++ bytes_of r.chunk)
unfolding received
received_bytes max_bytes deadline buffer [] r early alive sel chunk some_bytes fits =
    absurd (omega arith)
received_bytes max_bytes deadline buffer (c ∷ cs) r early alive sel chunk some_bytes fits =
    rw (alive, sel, chunk)
      (ground (arith, early, ap (λ o. length (buffer ++ bytes_of o)) chunk, fits))

module _ (codec : Codec) (max_bytes deadline : ℕ) where
  pub read_here :
      (buffer line behind : List ℕ) (rs : List Round)
      → split_line buffer ≡ some (line, behind)
      → read_message codec max_bytes deadline buffer rs ≡ (decoded codec max_bytes line, behind, rs)
  unfolding read_message
  read_here buffer line behind [] h = rw (h, read_message) refl
  read_here buffer line behind (r ∷ rs) h = rw (h, read_message) refl

  pub read_on :
      (buffer buffer' : List ℕ) (r : Round) (rs : List Round)
      → split_line buffer ≡ none
      → received max_bytes deadline buffer r ≡ (none, buffer')
      → read_message codec max_bytes deadline buffer (r ∷ rs)
        ≡ read_message codec max_bytes deadline buffer' rs
  unfolding read_message
  read_on buffer buffer' r rs h e =
      rw (h, e, read_message)
        (ap (λ (p : Option AgentError × List ℕ). read_message codec max_bytes deadline p.1 rs) e)

  part_fits :
      (buffer : List ℕ) (r : Round) (rs : List Round)
      → length (stream buffer (r ∷ rs)) ≤ max_bytes
      → length (buffer ++ bytes_of r.chunk) ≤ max_bytes
  part_fits buffer r rs fits = omega (
    arith,
    fits,
    ap length (stream_whole (buffer ++ bytes_of r.chunk) rs),
    length-append (buffer ++ bytes_of r.chunk) (stream [] rs),
  )

  -- However the bytes of an agent are cut into chunks that arrive in time, and as long as they fit
  -- into the limit, the first line is read, and what is behind it stays to be read.
  pub line_is_read :
      (rs : List Round) (buffer line behind : List ℕ)
      → All (IsDelivery deadline) rs
      → split_line (stream buffer rs) ≡ some (line, behind)
      → length (stream buffer rs) ≤ max_bytes
      → let r = read_message codec max_bytes deadline buffer rs in
        (r.0 ≡ decoded codec max_bytes line) × (stream r.1 r.2 ≡ behind)
  line_is_read [] buffer line behind d h fits = rw (read_here buffer line behind [] h) (refl, refl)
  line_is_read (r ∷ rs) buffer line behind d h fits = elim (Option-cases (split_line buffer)) [
    | inr ((line', behind'), here) ↦
        let split = split-append buffer (stream [] (r ∷ rs)) line' behind' here in
        let joined = sym split ∙ ap split_line (sym (stream_whole buffer (r ∷ rs))) ∙ h in
        rw (read_here buffer line' behind' (r ∷ rs) here) (
          ap (decoded codec max_bytes) (ground (arith, joined)),
          stream_whole behind' (r ∷ rs) ∙ ground (arith, joined),
        )
    | inl not_yet ↦
        rw
          (read_on buffer (buffer ++ bytes_of r.chunk) r rs not_yet (
            received_bytes max_bytes deadline buffer d.0.bytes r d.0.in_time d.0.alive d.0.selected
              d.0.chunk d.0.nonempty (part_fits buffer r rs fits)))
          (line_is_read rs (buffer ++ bytes_of r.chunk) line behind d.1 h fits)
  ]
