-- ===== src/Security/Signed.antt =====
-- A signed callback is accepted while it is fresh, and not when it is stale.
use brunost_judge.Prelude.{
  ℕ, ◌+◌, ap, ◌∙◌, sym, inl, inr, Bool-cases, String, ◌≡◌, Bool, true, false, not, ◌&&◌, Option,
  some, List, arith,
}
use brunost_judge.Prelude.Int.{
  ℤ, pos, negsuc, pos_part, neg_part, leb_ℤ, ltb_ℤ, ◌+ℤ◌, ◌-ℤ◌, +ℤ_parts, -ℤ_parts,
}
use brunost_judge.Store.{truthy_text}
use brunost_judge.Security.{
  Hmac, callback_signature, is_stale, verify_sent, verify_callback_signature,
}

-- two times are at most the tolerance apart
abbrev pub within : ℤ → ℤ → ℤ → Bool
within now sent_at tolerance = leb_ℤ now (sent_at +ℤ tolerance) && leb_ℤ sent_at (now +ℤ tolerance)

distance_within :
    (d now sent_at tolerance : ℤ)
    → pos_part d + neg_part now + pos_part sent_at ≡ neg_part d + pos_part now + neg_part sent_at
    → not (ltb_ℤ tolerance (pos (pos_part d + neg_part d))) ≡ within now sent_at tolerance
distance_within (pos n) now sent_at tolerance h =
    ground (arith, h, +ℤ_parts sent_at tolerance, +ℤ_parts now tolerance)
distance_within (negsuc n) now sent_at tolerance h =
    ground (arith, h, +ℤ_parts sent_at tolerance, +ℤ_parts now tolerance)

stale-eq-within :
    (now sent_at tolerance : ℤ)
    → not (is_stale now sent_at tolerance) ≡ within now sent_at tolerance
unfolding is_stale
stale-eq-within now sent_at tolerance =
    distance_within (now -ℤ sent_at) now sent_at tolerance (-ℤ_parts now sent_at)

module _ (lib : Hmac) (now again sent_at tolerance : ℤ) (payload : List ℕ) (secret : String)
    (event_id : Option String) (needs_event : Bool)
    (reads_back : lib.parse_int (lib.show_int sent_at) ≡ some sent_at) where
  pub signed_callback_is_accepted :
      let signature =
        (callback_signature lib again payload secret (some (lib.show_int sent_at)) event_id).1 in
      lib.compare_digest signature signature ≡ some true
      → needs_event && not (truthy_text event_id) ≡ false
      → is_stale now sent_at tolerance ≡ false
      → verify_callback_signature lib now again payload secret signature
          (lib.show_int sent_at)
          event_id
          tolerance
          needs_event
        ≡ some true
  unfolding verify_callback_signature verify_sent
  signed_callback_is_accepted same named fresh = rw (named, reads_back, fresh) same

  -- What is signed with a timestamp is decided by the clock alone, for a receiver with the same secret
  -- and event, under the same conditions on the library: it is accepted if the timestamp and the clock
  -- are at most the tolerance apart, whichever is later, and refused otherwise.
  pub signed_callback_is_timed :
      let signature =
        (callback_signature lib again payload secret (some (lib.show_int sent_at)) event_id).1 in
      lib.compare_digest signature signature ≡ some true
      → needs_event && not (truthy_text event_id) ≡ false
      → verify_callback_signature lib now again payload secret signature
          (lib.show_int sent_at)
          event_id
          tolerance
          needs_event
        ≡ some (within now sent_at tolerance)
  unfolding verify_callback_signature verify_sent
  signed_callback_is_timed same named = elim (Bool-cases (is_stale now sent_at tolerance)) [
    | inl stale ↦
        rw (named, reads_back, stale)
          (ap some (ap not (sym stale) ∙ stale-eq-within now sent_at tolerance))
    | inr fresh ↦
        signed_callback_is_accepted same named fresh
        ∙ ap some (ap not (sym fresh) ∙ stale-eq-within now sent_at tolerance)
  ]
