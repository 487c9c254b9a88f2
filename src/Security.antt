-- ===== src/Security.antt =====
-- src/brunost_judge/security.py: the signatures of result callbacks.
pub mod Signed
mod Tests
use brunost_judge.Prelude.{
  ℕ, ◌+◌, String, Bool, true, false, not, ◌&&◌, Option, none, some, List, ◌++◌, ◌==◌, if◌then◌else◌,
}
use brunost_judge.Prelude.Int.{ℤ, pos, pos_part, neg_part, ltb_ℤ, ◌-ℤ◌}
use brunost_judge.Text.{◌+++◌}
use brunost_judge.Store.{truthy_text}

-- What the module takes from the standard library. Bytes are lists of numbers.
pub record Hmac : Type 0 where
  -- `text.encode("utf-8")`
  pub utf8 : String → List ℕ
  -- `hmac.new(key, message, hashlib.sha256).hexdigest()`
  pub hexdigest : List ℕ → List ℕ → String
  -- `int(text)`; `none` is the ValueError
  pub parse_int : String → Option ℤ
  -- `str(number)`
  pub show_int : ℤ → String
  -- `hmac.compare_digest`; `none` is the TypeError of a text that is not ASCII
  pub compare_digest : String → String → Option Bool

-- `timestamp or str(int(time.time()))`, where `now` is the clock in whole seconds
unfoldable pub sent_time : Hmac → ℤ → Option String → String
sent_time lib now none = lib.show_int now
sent_time lib now (some t) = if t == "" then lib.show_int now else t

-- f"{sent_at}.{event_id}." or f"{sent_at}."
unfoldable pub prefix : String → Option String → String
prefix sent_at none = sent_at +++ "."
prefix sent_at (some e) = if e == "" then sent_at +++ "." else sent_at +++ "." +++ e +++ "."

-- `callback_signature`
unfoldable pub callback_signature :
    Hmac → ℤ → List ℕ → String → Option String → Option String → String × String
unfolding sent_time prefix
callback_signature lib now payload secret timestamp event_id =
    let sent_at = sent_time lib now timestamp in
    (
      sent_at,
      "sha256=" +++ lib.hexdigest (lib.utf8 secret) (lib.utf8 (prefix sent_at event_id) ++ payload),
    )

-- `abs(int(time.time()) - sent_at) > tolerance_seconds`
unfoldable pub is_stale : ℤ → ℤ → ℤ → Bool
unfolding ◌-ℤ◌
is_stale now sent_at tolerance =
    let d = now -ℤ sent_at in ltb_ℤ tolerance (pos (pos_part d + neg_part d))

-- the branch on the parsed timestamp; `again` is the clock when the expected signature is made
unfoldable pub verify_sent :
    Hmac → ℤ → ℤ → List ℕ → String → String → Option String → ℤ → Option ℤ → Option Bool
unfolding is_stale callback_signature
verify_sent lib now again payload secret signature event_id tolerance none = some false
verify_sent lib now again payload secret signature event_id tolerance (some sent_at) =
    if is_stale now sent_at tolerance
    then some false
    else lib.compare_digest
        (callback_signature lib again payload secret (some (lib.show_int sent_at)) event_id).1
        signature

-- `verify_callback_signature`
unfoldable pub verify_callback_signature :
    Hmac → ℤ → ℤ → List ℕ → String → String → String → Option String → ℤ → Bool → Option Bool
unfolding verify_sent
verify_callback_signature lib now again payload secret signature timestamp event_id tolerance
      require_event_id =
    if require_event_id && not (truthy_text event_id)
    then some false
    else verify_sent lib now again payload secret signature event_id tolerance
        (lib.parse_int timestamp)
