-- ===== src/Platform.antt =====
-- What the judge takes from the Python standard library, sqlite3 included, and does not implement itself.
use brunost_judge.Prelude.{ℕ, String, Bool, true, Option, none, some, leb}
use brunost_judge.Json.{Json, Fields}

pub record Platform : Type 0 where
  -- `json.dumps(value, sort_keys=True, separators=(",", ":"), ensure_ascii=False)`
  pub dumps : Fields → String
  -- `hashlib.sha256(text.encode("utf-8")).hexdigest()`
  pub sha256 : String → String
  -- `datetime.fromisoformat`, in microseconds, with UTC for a time without a zone; `none` is the
  -- ValueError
  pub parse_time : String → Option ℕ
  -- what a REAL column of sqlite3 gives back for a score that is bound to it; `none` is the
  -- OverflowError of an int of more than 64 bits
  pub real : Json → Option Json

-- `digest_secret` of src/brunost_judge/enrollment.py
unfoldable pub digest_secret : Platform → String → String
digest_secret lib value = lib.sha256 value

-- `is_expired` of src/brunost_judge/enrollment.py, at the clock's reading `now`
unfoldable pub is_expired : Platform → ℕ → String → Bool
is_expired lib now value = elim (lib.parse_time value) [
  | none ↦ true
  | some expiry ↦ leb expiry now
]
