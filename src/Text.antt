-- ===== src/Text.antt =====
-- Python's `str` operations that the judge uses, on the code points of a text.
use Prim.Native.Char.{code}
mod Tests
pub use Prim.Native.String.{◌++◌ as text_append}
use brunost_judge.Prelude.{
  ℕ, suc, String, Bool, true, false, ◌&&◌, ◌||◌, List, [], ◌∷◌, length, leb, nat_eq, if◌then◌else◌,
}

abbrev pub codes : String → List ℕ
codes String.[] = []
codes (String.◌∷◌ c s) = code c ∷ codes s

-- `len(s)`
abbrev pub text_length : String → ℕ
text_length s = length (codes s)

-- `s + t`
infixr 68 ◌+++◌
abbrev pub ◌+++◌ : String → String → String
s +++ t = text_append s t

-- the characters of a text, as texts
unfoldable pub chars : String → List String
chars String.[] = []
chars (String.◌∷◌ c s) = String.◌∷◌ c String.[] ∷ chars s

unfoldable pub is_hex : ℕ → Bool
is_hex c = (leb b'0' c && leb c b'9') || (leb b'a' c && leb c b'f') || (leb b'A' c && leb c b'F')

unfoldable pub all_codes : (ℕ → Bool) → List ℕ → Bool
all_codes p [] = true
all_codes p (c ∷ cs) = p c && all_codes p cs

-- the white space that `strip` and `split` know
unfoldable pub is_space : ℕ → Bool
is_space c =
    (leb 9 c && leb c 13)
    || (leb 28 c && leb c 32)
    || nat_eq c 0x85
    || nat_eq c 0xa0
    || nat_eq c 0x1680
    || (leb 0x2000 c && leb c 0x200a)
    || nat_eq c 0x2028
    || nat_eq c 0x2029
    || nat_eq c 0x202f
    || nat_eq c 0x205f
    || nat_eq c 0x3000

-- `not s.strip()`
unfoldable pub is_blank : String → Bool
unfolding all_codes is_space
is_blank s = all_codes is_space (codes s)

-- whether a part between slashes is `..`: the dots of the part that is being read, and whether it
-- has had nothing else
unfoldable pub is_parent_from : ℕ → Bool → List ℕ → Bool
is_parent_from dots pure [] = nat_eq dots 2 && pure
is_parent_from dots pure (c ∷ cs) =
    if nat_eq c b'/'
    then (if nat_eq dots 2 && pure then true else is_parent_from 0 true cs)
    else is_parent_from (if nat_eq c b'.' then suc dots else dots) (pure && nat_eq c b'.') cs

-- `".." in Path(s).parts`
unfoldable pub has_parent_part : String → Bool
unfolding is_parent_from
has_parent_part s = is_parent_from 0 true (codes s)

-- `Path(s).is_absolute()` on POSIX
unfoldable pub is_absolute : String → Bool
is_absolute String.[] = false
is_absolute (String.◌∷◌ c s) = nat_eq (code c) b'/'
