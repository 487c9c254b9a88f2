-- ===== src/Security/Tests.antt =====
-- A concrete library, and the theorems on signed callbacks applied to it.
use brunost_judge.Prelude.{◌≡◌, refl, true, some, [], ◌∷◌, ◌==◌}
use brunost_judge.Prelude.Int.{pos}
use brunost_judge.Security.{Hmac, callback_signature, verify_callback_signature}
use brunost_judge.Security.Signed.{signed_callback_is_timed, within}

abbrev lib : Hmac
lib = record {
  utf8 = λ text. [];
  hexdigest = λ key message. "9f";
  parse_int = λ text. some (pos 100);
  show_int = λ n. "100";
  compare_digest = λ a b. some (a == b);
}

signed_callback_is_timed_example :
    verify_callback_signature lib
      (pos 500)
      (pos 500)
      (1 ∷ [])
      "secret"
      (callback_signature lib (pos 500) (1 ∷ []) "secret" (some "100") (some "e1")).1
      "100"
      (some "e1")
      (pos 300)
      true
    ≡ some (within (pos 500) (pos 100) (pos 300))
signed_callback_is_timed_example =
    signed_callback_is_timed lib (pos 500) (pos 500) (pos 100) (pos 300) (1 ∷ []) "secret"
      (some "e1") true refl (unfold callback_signature in refl) refl
