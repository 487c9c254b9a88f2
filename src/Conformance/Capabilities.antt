-- ===== src/Conformance/Capabilities.antt =====
-- `validate_capability_payload` and `assert_conformant` of src/brunost_judge/conformance.py.
use brunost_judge.Prelude.{
  String, Bool, true, false, not, ◌&&◌, Option, none, some, List, [], ◌∷◌, ◌++◌, ◌==◌,
  if◌then◌else◌,
}
use brunost_judge.Json.{Json, str, arr, Items, nil, cons, Fields, get_or_null, truthy}
use brunost_judge.Platform.{Platform}
use brunost_judge.Conformance.{error_if, validate_result_payload}

-- `all(isinstance(item, str) and item for item in capabilities)`
unfoldable pub all_names : Items → Bool
all_names nil = true
all_names (cons (str s) xs) = not (s == "") && all_names xs
all_names (cons _ xs) = false

unfoldable pub capability_errors : Json → List String
unfolding error_if all_names
capability_errors (arr xs) =
    error_if (not (all_names xs)) "capabilities must be a list of non-empty strings"
capability_errors _ = "capabilities must be a list of non-empty strings" ∷ []

-- `validate_capability_payload`
unfoldable pub validate_capability_payload : Fields → List String
unfolding error_if truthy get_or_null capability_errors
validate_capability_payload p =
    error_if (not (truthy (get_or_null "worker_id" p))) "missing worker_id"
    ++ capability_errors (get_or_null "capabilities" p)

-- the ValueError of an unknown kind, that of the messages, and the TypeError of a status without a
-- hash
pub data Rejection : Type 0 where
  unknown_kind : String → Rejection
  rejected : List String → Rejection
  unhashable_status : Rejection

-- `if errors: raise ValueError("; ".join(errors))`
unfoldable pub reject_if : List String → Option Rejection
reject_if [] = none
reject_if (e ∷ es) = some (rejected (e ∷ es))

unfoldable pub reject_result : Option (List String) → Option Rejection
unfolding reject_if
reject_result none = some unhashable_status
reject_result (some errors) = reject_if errors

-- `assert_conformant`; `none` is its return
unfoldable pub assert_conformant : Platform → Fields → String → Option Rejection
unfolding reject_if reject_result validate_capability_payload validate_result_payload
assert_conformant lib p kind =
    if kind == "result"
    then reject_result (validate_result_payload lib p)
    else if kind == "capabilities"
    then reject_if (validate_capability_payload p)
    else some (unknown_kind kind)
