-- ===== src/Agents/Reader/Progress.antt =====
-- Reading ends: each round either ends the method or adds a byte, and the buffer is bounded.
use brunost_judge.Prelude.{
  ℕ, ◌+◌, ◌≤◌, ◌<◌, ◌≡◌, ◌≢◌, sym, ap, ◌∙◌, inl, inr, Option, none, some, List, [], ◌∷◌, ◌++◌,
  length, length-append, Option-cases, arith,
}
use brunost_judge.Json.{Fields}
use brunost_judge.Agents.Reader.Split.{read_here, read_on}
use brunost_judge.Protocol.{decode_message, ProtocolDirection, Codec, Outcome, raised, passed}
use brunost_judge.Agents.Reader.{
  append_chunk, Round, waiting, split_line, decoded, read_outcome, received, read_message,
}

append_chunk_more :
    (max_bytes : ℕ) (buffer buffer' : List ℕ) (chunk : Option (List ℕ))
    → append_chunk max_bytes buffer chunk ≡ (none, buffer')
    → (length buffer < length buffer') × (length buffer' ≤ max_bytes)
unfolding append_chunk
append_chunk_more max_bytes buffer buffer' none h = absurd (ground arith)
append_chunk_more max_bytes buffer buffer' (some []) h = absurd (ground arith)
append_chunk_more max_bytes buffer buffer' (some (c ∷ cs)) h =
    let same : buffer ++ c ∷ cs ≡ buffer' = ap (λ p. p.1) h in
    let longer = length-append buffer (c ∷ cs) in
    ground (arith, longer, ap length same, ap (λ p. p.0) h)

-- a round that goes on has added a byte, within the limit
received_more :
    (max_bytes deadline : ℕ) (buffer buffer' : List ℕ) (r : Round)
    → received max_bytes deadline buffer r ≡ (none, buffer')
    → (length buffer < length buffer') × (length buffer' ≤ max_bytes)
unfolding received
received_more max_bytes deadline buffer buffer' r h =
    ground (arith, append_chunk_more max_bytes buffer buffer' r.chunk)

decoded-answers :
    (codec : Codec) (max_bytes : ℕ) (line : List ℕ) → decoded codec max_bytes line ≢ waiting
unfolding decoded
decoded-answers codec max_bytes line h =
    go (decode_message codec max_bytes ProtocolDirection.agent line) h
  where
    go : (o : Outcome Fields) → read_outcome o ≢ waiting
    go (passed message) e = absurd (cc)
    go (raised e) x = absurd (ground arith)

module _ (codec : Codec) (max_bytes deadline : ℕ) where
  -- With more rounds than the limit leaves bytes, the method ends, whatever the rounds bring.
  pub reading_ends :
      (rs : List Round) (buffer : List ℕ)
      → length buffer ≤ max_bytes
      → max_bytes < length buffer + length rs
      → (read_message codec max_bytes deadline buffer rs).0 ≢ waiting
  unfolding read_message
  reading_ends [] buffer fits enough h = absurd (omega arith)
  reading_ends (r ∷ rs) buffer fits enough h = elim (Option-cases (split_line buffer)) [
    | inr (p, here) ↦
        decoded-answers codec max_bytes p.0 (
          sym (ap (λ o. o.0) (read_here codec max_bytes deadline buffer p.0 p.1 (r ∷ rs) here)) ∙ h)
    | inl not_yet ↦ elim (Option-cases (received max_bytes deadline buffer r).0) [
      | inr (e, ended) ↦ absurd (ground (arith, not_yet, ended))
      | inl on ↦
          let again : received max_bytes deadline buffer r
              ≡ (none, (received max_bytes deadline buffer r).1) =
            λ i. (on i, (received max_bytes deadline buffer r).1) in
          let more = received_more max_bytes deadline buffer _ r again in
          reading_ends rs (received max_bytes deadline buffer r).1 more.1
            (omega (arith, more.0, enough))
            (sym (ap (λ o. o.0) (read_on codec max_bytes deadline buffer _ r rs not_yet again)) ∙ h)
    ]
  ]
