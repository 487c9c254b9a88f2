-- ===== src/Agents/Reader.antt =====
-- `_AgentProcess._read_message` of src/grader/agent_runtime.py. What a round of its loop sees of the
-- world (the clock, the process, `select` and `os.read`) is a value, so that a run is a list of them.
pub mod Split
pub mod Progress
use brunost_judge.Prelude.{
  ℕ, Bool, Option, none, some, List, [], ◌∷◌, ◌++◌, length, leb, ltb, nat_eq, if◌then◌else◌,
}
use brunost_judge.Prelude.Int.{ℤ}
use brunost_judge.Json.{Fields}
use brunost_judge.Protocol.{
  Codec, Outcome, raised, passed, ProtocolError, ProtocolDirection, type_error, crash,
  decode_message,
}

-- The subclasses of AgentRuntimeError, and an exception that is none of them.
pub data AgentError : Type 0 where
  runtime_error launch_error protocol_error timeout crashed uncaught : AgentError

-- what `select` reports
pub data Selected : Type 0 where
  failed silent readable : Selected

-- one round: the clock, `process.poll()`, `select`, and `os.read`, which is none if it raises
pub record Round : Type 0 where
  pub clock : ℕ
  pub exit_code : Option ℤ
  pub selected : Selected
  pub chunk : Option (List ℕ)

-- how the method ends; `waiting` if it needs more rounds
pub data Read : Type 0 where
  got : Fields → Read
  error : AgentError → Read
  waiting : Read

-- the bytes before the first newline, and those behind it
unfoldable pub split_line : List ℕ → Option (List ℕ × List ℕ)
split_line [] = none
split_line (c ∷ cs) =
    let rest = split_line cs in
    if nat_eq c b'\n'
    then some ([], cs)
    else elim rest [ none ↦ none | some (line, behind) ↦ some (c ∷ line, behind) ]

abbrev pub read_outcome : Outcome Fields → Read
read_outcome (passed message) = got message
read_outcome (raised type_error) = error uncaught
read_outcome (raised crash) = error uncaught
read_outcome (raised _) = error protocol_error

unfoldable pub decoded : Codec → ℕ → List ℕ → Read
unfolding decode_message
decoded codec max_bytes line =
    read_outcome (decode_message codec max_bytes ProtocolDirection.agent line)

-- what `os.read` brings; no bytes are the end of the stream
unfoldable pub append_chunk : ℕ → List ℕ → Option (List ℕ) → Option AgentError × List ℕ
append_chunk max_bytes buffer none = (some crashed, buffer)
append_chunk max_bytes buffer (some []) = (some crashed, buffer)
append_chunk max_bytes buffer (some (c ∷ cs)) = (
  if ltb max_bytes (length (buffer ++ c ∷ cs)) then some protocol_error else none,
  buffer ++ c ∷ cs,
)

-- what a round without a line does: an error ends the loop, and a chunk is appended to the buffer
unfoldable pub received : ℕ → ℕ → List ℕ → Round → Option AgentError × List ℕ
unfolding append_chunk
received max_bytes deadline buffer r =
    if leb deadline r.clock then (some timeout, buffer) else elim r.exit_code [
      | some code ↦ (some crashed, buffer)
      | none ↦ elim r.selected [
        | failed ↦ (some runtime_error, buffer)
        | silent ↦ (some timeout, buffer)
        | readable ↦ append_chunk max_bytes buffer r.chunk
      ]
    ]

-- `_read_message`, with the buffer and the rounds that are left
unfoldable pub read_message : Codec → ℕ → ℕ → List ℕ → List Round → Read × List ℕ × List Round
unfolding split_line decoded received
read_message codec max_bytes deadline buffer [] = elim (split_line buffer) [
  | some (line, behind) ↦ (decoded codec max_bytes line, behind, [])
  | none ↦ (waiting, buffer, [])
]
read_message codec max_bytes deadline buffer (r ∷ rs) = elim (split_line buffer) [
  | some (line, behind) ↦ (decoded codec max_bytes line, behind, r ∷ rs)
  | none ↦
      let after = received max_bytes deadline buffer r in
      elim after.0 [
        | some e ↦ (error e, after.1, rs)
        | none ↦ read_message codec max_bytes deadline after.1 rs
      ]
]
