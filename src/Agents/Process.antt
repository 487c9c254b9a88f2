-- ===== src/Agents/Process.antt =====
-- `AgentLimits`, `AgentSpec` and `_AgentProcess.request` of src/grader/agent_runtime.py. A time is a
-- number of microseconds, and times are added exactly. Standard error and the process itself are
-- left out.
use brunost_judge.Prelude.{
  ℕ, ◌+◌, ◌-◌, min, String, Bool, true, false, not, ◌&&◌, Option, none, some, List, [], ◌∷◌, leb,
  ◌==◌, nat_eq, if◌then◌else◌,
}
use brunost_judge.Prelude.Int.{ℤ, pos, negsuc}
use brunost_judge.Json.{Fields}
use brunost_judge.Protocol.{Codec, raised, passed, ProtocolError, type_error, crash, encode_message}
use brunost_judge.Agents.Reader.{
  AgentError, protocol_error, timeout, crashed, uncaught, Round, Read, read_message,
}

-- `AgentLimits`
pub record AgentLimits : Type 0 where
  pub startup_timeout : ℕ
  pub turn_timeout : ℕ
  pub total_timeout : ℕ
  pub max_message_bytes : ℕ
  pub max_turns : ℕ
  pub memory_bytes : ℕ
  pub file_bytes : ℕ
  pub open_files : ℕ
  pub stderr_bytes : ℕ

-- `AgentLimits.__post_init__`, which raises ValueError on false
unfoldable pub limits_are_positive : AgentLimits → Bool
limits_are_positive l =
    leb 1 l.startup_timeout
    && leb 1 l.turn_timeout
    && leb 1 l.total_timeout
    && leb 1 l.max_message_bytes
    && leb 1 l.max_turns
    && leb 1 l.memory_bytes
    && leb 1 l.file_bytes
    && leb 1 l.open_files
    && leb 1 l.stderr_bytes

-- `AgentSpec`
pub record AgentSpec : Type 0 where
  pub agent_id : String
  pub seat : ℤ
  pub artifact_path : String
  pub command : Option (List String)
  pub seed : ℤ
  pub metadata : Fields

unfoldable pub all_named : List String → Bool
all_named [] = true
all_named (item ∷ items) = not (item == "") && all_named items

unfoldable pub is_command : Option (List String) → Bool
unfolding all_named
is_command none = true
is_command (some []) = false
is_command (some (item ∷ items)) = all_named (item ∷ items)

abbrev pub is_negative : ℤ → Bool
is_negative (pos n) = false
is_negative (negsuc n) = true

-- `AgentSpec.__post_init__`, which raises ValueError on false
unfoldable pub spec_is_valid : AgentSpec → Bool
unfolding is_command
spec_is_valid s =
    not (s.agent_id == "")
    && not (is_negative s.seat)
    && not (s.artifact_path == "")
    && is_command s.command

-- a process, once it is launched
pub record AgentProcess : Type 0 where
  pub spec : AgentSpec
  pub stdout_buffer : List ℕ
  pub deadline : ℕ
  pub last_request : ℕ
  pub requests : ℕ
  pub turns : ℕ

-- what one request meets: the readings of the clock, whether the pipe takes the bytes, and the
-- rounds in which the answer is read
pub record Exchange : Type 0 where
  pub now : ℕ
  pub started : ℕ
  pub written : Bool
  pub finished : ℕ
  pub reading : ℕ
  pub rounds : List Round

abbrev pub encoding_error : ProtocolError → AgentError
encoding_error type_error = uncaught
encoding_error crash = uncaught
encoding_error _ = protocol_error

-- `min(timeout or self.limits.turn_timeout_seconds, remaining_total)`
unfoldable pub wait_for : AgentLimits → Option ℕ → ℕ → ℕ
wait_for l none remaining = min l.turn_timeout remaining
wait_for l (some t) remaining = min (if nat_eq t 0 then l.turn_timeout else t) remaining

-- the write, which counts as a request whether it fails or not, and then the answer
unfoldable pub exchange : Codec → AgentLimits → AgentProcess → ℕ → Exchange → Read × AgentProcess
unfolding read_message
exchange codec l p wait x =
    let sent : AgentProcess = record p {
      requests = p.requests + 1;
      last_request = x.finished - x.started;
    } in
    if x.written
    then (let r =
          read_message codec l.max_message_bytes (x.reading + wait) p.stdout_buffer x.rounds in
        (r.0, record sent { stdout_buffer = r.1 }))
    else (Read.error crashed, sent)

-- `_AgentProcess.request`
unfoldable pub request :
    Codec → AgentLimits → AgentProcess → Fields → Option ℕ → Exchange → Read × AgentProcess
unfolding encode_message wait_for exchange
request codec l p message limit x = elim (encode_message codec l.max_message_bytes message) [
  | raised e ↦ (Read.error (encoding_error e), p)
  | passed encoded ↦
      if leb p.deadline x.now
      then (Read.error timeout, p)
      else exchange codec l p (wait_for l limit (p.deadline - x.now)) x
]
