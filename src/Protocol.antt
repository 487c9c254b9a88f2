-- ===== src/Protocol.antt =====
-- src/grader/agent_protocol.py: the checks and the framing of the agent protocol.
pub mod Messages
mod Tests
use brunost_judge.Prelude.{
  ℕ, zero, suc, ◌+◌, ◌*◌, String, Bool, true, false, not, ◌&&◌, ◌||◌, Option, none, some, List, [],
  ◌∷◌, ◌++◌, length, ltb, ◌==◌, if◌then◌else◌,
}
use brunost_judge.Prelude.Int.{ℤ, pos, negsuc}
use brunost_judge.Json.{
  int, Json, null, bool, num, str, arr, obj, Fields, end, field, get, get_or_null, json_eq,
}
use brunost_judge.Conformance.{hashable}

-- `type_error` is the TypeError of a message type without a hash, and `crash` any exception of
-- `json.loads` but the two that are caught; the others are the ProtocolValidationError
pub data ProtocolError : Type 0 where
  too_large undecodable not_serializable not_an_object unknown_type wrong_direction : ProtocolError
  wrong_version metadata_not_object turn_without_state action_without_action : ProtocolError
  not_text not_integer negative not_positive : String → ProtocolError
  type_error crash : ProtocolError

pub data Outcome (A : Type 0) : Type 0 where
  raised : ProtocolError → Outcome A
  passed : A → Outcome A

pub data ProtocolDirection : Type 0 where
  controller agent : ProtocolDirection

abbrev pub protocol_version : ℤ
protocol_version = pos 1

abbrev pub default_max_message_bytes : ℕ
default_max_message_bytes = 64 * 1024

-- `message_type not in MESSAGE_TYPES`
unfoldable pub is_message_type : String → Bool
is_message_type t = t == "init" || t == "ready" || t == "turn" || t == "action" || t == "shutdown"

-- `message_type in allowed`
unfoldable pub is_allowed : ProtocolDirection → String → Bool
is_allowed controller t = t == "init" || t == "turn" || t == "shutdown"
is_allowed agent t = t == "ready" || t == "action"

abbrev pub Check : Type 0
Check = Option ProtocolError

abbrev pub check : Bool → ProtocolError → Check
check test e = if test then none else some e

-- `_require_string`
unfoldable pub require_string : String → Fields → Check
unfolding get_or_null
require_string name p = elim (get_or_null name p) [
  | str s ↦ check (not (s == "")) (not_text name)
  | null ↦ some (not_text name)
  | bool b ↦ some (not_text name)
  | num n ↦ some (not_text name)
  | arr xs ↦ some (not_text name)
  | obj fs ↦ some (not_text name)
]

-- `_require_int`, `_require_nonnegative_int` and `_require_positive_int`: a value that is no integer
-- fails the first test, and then the bound decides
unfoldable pub integer_check : (ℤ → Check) → ProtocolError → Json → Check
integer_check bound e (num (int z)) = bound z
integer_check bound e _ = some e

unfoldable pub require_int : String → Fields → Check
unfolding get_or_null integer_check
require_int name p = integer_check (λ z. none) (not_integer name) (get_or_null name p)

unfoldable pub at_least_zero : String → ℤ → Check
at_least_zero name (pos n) = none
at_least_zero name (negsuc n) = some (negative name)

unfoldable pub require_nonnegative_int : String → Fields → Check
unfolding get_or_null integer_check at_least_zero
require_nonnegative_int name p =
    integer_check (at_least_zero name) (not_integer name) (get_or_null name p)

unfoldable pub at_least_one : String → ℤ → Check
at_least_one name (pos zero) = some (not_positive name)
at_least_one name (pos (suc n)) = none
at_least_one name (negsuc n) = some (not_positive name)

unfoldable pub require_positive_int : String → Fields → Check
unfolding get_or_null integer_check at_least_one
require_positive_int name p =
    integer_check (at_least_one name) (not_integer name) (get_or_null name p)

-- `isinstance(payload.get("metadata", {}), Mapping)`
unfoldable pub metadata_check : Option Json → Check
metadata_check none = none
metadata_check (some (obj fs)) = none
metadata_check (some _) = some metadata_not_object

-- `"state" not in payload`
unfoldable pub present : String → Fields → ProtocolError → Check
unfolding get
present name p e = elim (get name p) [ none ↦ some e | some v ↦ none ]

-- the first statement that raises
unfoldable pub first_error : List Check → Check
first_error [] = none
first_error (none ∷ cs) = first_error cs
first_error (some e ∷ cs) = some e

-- the branch on the message type
unfoldable pub body_checks : String → Fields → List Check
unfolding get_or_null get json_eq require_string require_int require_nonnegative_int
    require_positive_int metadata_check present
body_checks t p =
    if t == "init"
    then check (json_eq (get_or_null "protocol_version" p) (num (int protocol_version)))
        wrong_version
      ∷ require_string "agent_id" p
      ∷ require_nonnegative_int "seat" p
      ∷ require_int "seed" p
      ∷ metadata_check (get "metadata" p)
      ∷ []
    else if t == "turn"
    then require_positive_int "turn" p
      ∷ require_string "agent_id" p
      ∷ require_nonnegative_int "seat" p
      ∷ require_int "seed" p
      ∷ present "state" p turn_without_state
      ∷ []
    else if t == "action"
    then present "action" p action_without_action ∷ []
    else []

abbrev pub outcome : Check → Fields → Outcome Fields
outcome none p = passed p
outcome (some e) p = raised e

-- the checks of a message whose type is a text
unfoldable pub validate_typed : ProtocolDirection → String → Fields → Outcome Fields
unfolding is_message_type is_allowed body_checks first_error
validate_typed d t p =
    outcome
      (first_error (
        check (is_message_type t) unknown_type
        ∷ check (is_allowed d t) wrong_direction
        ∷ body_checks t p))
      p

-- `validate_message`, for a message that is an object
unfoldable pub validate_message : ProtocolDirection → Fields → Outcome Fields
unfolding get_or_null hashable validate_typed
validate_message d p = elim (get_or_null "type" p) [
  | str t ↦ validate_typed d t p
  | null ↦ raised unknown_type
  | bool b ↦ raised unknown_type
  | num n ↦ raised unknown_type
  | arr xs ↦ raised type_error
  | obj fs ↦ raised type_error
]

-- what `json.loads` makes of bytes: a value, an exception that is caught or a constant that is
-- refused, or another exception
pub data Loaded : Type 0 where
  value : Json → Loaded
  refused failure : Loaded

-- the JSON library, on bytes; `none` is the TypeError or ValueError of `json.dumps`
pub record Codec : Type 0 where
  pub loads : List ℕ → Loaded
  pub dumps : Fields → Option (List ℕ)

abbrev pub newline : ℕ
newline = 10

-- the frame, if it is not too large
unfoldable pub framed : ℕ → Option (List ℕ) → Outcome (List ℕ)
framed max_bytes none = raised not_serializable
framed max_bytes (some encoded) =
    if ltb max_bytes (length (encoded ++ newline ∷ []))
    then raised too_large
    else passed (encoded ++ newline ∷ [])

-- `encode_message`
unfoldable pub encode_message : Codec → ℕ → Fields → Outcome (List ℕ)
unfolding validate_message framed
encode_message codec max_bytes message = elim (validate_message controller message) [
  | raised e ↦ raised e
  | passed normalized ↦ framed max_bytes (codec.dumps normalized)
]

-- the message that was loaded
unfoldable pub loaded_message : ProtocolDirection → Loaded → Outcome Fields
unfolding validate_message
loaded_message d refused = raised undecodable
loaded_message d failure = raised crash
loaded_message d (value (obj p)) = validate_message d p
loaded_message d (value _) = raised not_an_object

-- `decode_message`
unfoldable pub decode_message : Codec → ℕ → ProtocolDirection → List ℕ → Outcome Fields
unfolding loaded_message
decode_message codec max_bytes d raw =
    if ltb max_bytes (length raw) then raised too_large else loaded_message d (codec.loads raw)
