-- ===== src/Protocol/Tests.antt =====
-- A concrete codec and messages, and the theorems on the protocol applied to them.
use brunost_judge.Prelude.{◌≡◌, refl, some, [], ◌∷◌}
use brunost_judge.Prelude.Int.{pos}
use brunost_judge.Json.{int, num, str, Fields, end, field}
use brunost_judge.Protocol.{
  passed, raised, controller, agent, Codec, value, encode_message, decode_message, validate_message,
  type_error, wrong_direction,
}
use brunost_judge.Protocol.Messages.{encoded_message_is_decoded}
use brunost_judge.Json.{obj, arr, nil}

abbrev init_message : Fields
init_message = field "type" (str "init") (
    field "protocol_version" (num (int (pos 1))) (
      field "agent_id" (str "left")
        (field "seat" (num (int (pos 0))) (field "seed" (num (int (pos 7))) end))))

-- it knows one message, which it writes as two bytes
abbrev codec : Codec
codec = record { loads = λ raw. value (obj init_message); dumps = λ p. some (123 ∷ 125 ∷ []) }

init_passes : validate_message controller init_message ≡ passed init_message
unfolding validate_message
init_passes = refl

init_is_no_reply : validate_message agent init_message ≡ raised wrong_direction
unfolding validate_message
init_is_no_reply = refl

-- a type that is a list is no protocol error but a TypeError
list_type : validate_message agent (field "type" (arr nil) end) ≡ raised type_error
unfolding validate_message
list_type = refl

encoded_message_is_decoded_example :
    decode_message codec 64 controller (123 ∷ 125 ∷ 10 ∷ []) ≡ passed init_message
encoded_message_is_decoded_example =
    encoded_message_is_decoded codec 64 init_message (123 ∷ 125 ∷ 10 ∷ []) (λ encoded h. refl)
      (unfold encode_message in refl)
