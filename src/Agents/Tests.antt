-- ===== src/Agents/Tests.antt =====
-- Two agents that answer a turn, and a stream that comes in pieces.
use brunost_judge.Prelude.{
  ℕ, ◌+◌, ◌≤◌, ◌≡◌, ◌≢◌, refl, true, none, some, List, [], ◌∷◌, map, length, arith,
}
use brunost_judge.Prelude.Int.{ℤ, pos}
use brunost_judge.Json.{Json, null, str, obj, Fields, end, field}
use brunost_judge.Protocol.{Codec, value}
use brunost_judge.Agents.Reader.{Round, readable, waiting, split_line, decoded, read_message}
use brunost_judge.Agents.Reader.Split.{IsDelivery, stream, line_is_read}
use brunost_judge.Agents.Reader.Progress.{reading_ends}
use brunost_judge.Agents.Process.{AgentLimits, AgentProcess, Exchange}
use brunost_judge.Agents.Runtime.{AgentRuntime, all, step, next_turn, turn_number}
use brunost_judge.Agents.Runtime.Turns.{seat_of, turn_answers}
use brunost_judge.Agents.Runtime.Match.{Match, over, turn, Match-is_bounded}

abbrev action : Fields
action = field "type" (str "action") (field "action" null end)

-- it reads every line as an action, and writes every message as two bytes
abbrev codec : Codec
codec = record { loads = λ raw. value (obj action); dumps = λ p. some (123 ∷ 125 ∷ []) }

abbrev delivery : List ℕ → Round
delivery bytes = record { clock = 5; exit_code = none; selected = readable; chunk = some bytes }

abbrev pieces : List Round
pieces = delivery (123 ∷ []) ∷ delivery (125 ∷ 10 ∷ 123 ∷ []) ∷ delivery (125 ∷ []) ∷ []

arrives : (bytes : List ℕ) → 1 ≤ length bytes → IsDelivery 9 (delivery bytes)
arrives bytes some_bytes = record {
  bytes = bytes;
  in_time = omega arith;
  alive = refl;
  selected = refl;
  chunk = refl;
  nonempty = some_bytes;
}

line_is_read_example :
    ((read_message codec 64 9 [] pieces).0 ≡ decoded codec 64 (123 ∷ 125 ∷ []))
    × (stream (read_message codec 64 9 [] pieces).1 (read_message codec 64 9 [] pieces).2
        ≡ 123 ∷ 125 ∷ [])
line_is_read_example =
    line_is_read codec 64 9 pieces [] (123 ∷ 125 ∷ []) (123 ∷ 125 ∷ [])
      (
        arrives (123 ∷ []) (omega arith),
        (arrives (125 ∷ 10 ∷ 123 ∷ []) (omega arith), (arrives (125 ∷ []) (omega arith), tt)),
      )
      (unfold split_line in refl) (omega arith)

reading_ends_example : (read_message codec 2 9 [] pieces).0 ≢ waiting
reading_ends_example = reading_ends codec 2 9 pieces [] (omega arith) (omega arith)

abbrev limits : AgentLimits
limits = record {
  startup_timeout = 2000000;
  turn_timeout = 1000000;
  total_timeout = 30000000;
  max_message_bytes = 64;
  max_turns = 2;
  memory_bytes = 536870912;
  file_bytes = 16777216;
  open_files = 128;
  stderr_bytes = 16384;
}

abbrev process : ℤ → ℕ → AgentProcess
process seat turns = record {
  spec = record {
    agent_id = "left";
    seat = seat;
    artifact_path = "agents/left";
    command = none;
    seed = pos 7;
    metadata = end;
  };
  stdout_buffer = [];
  deadline = 30000000;
  last_request = 1;
  requests = turns + 1;
  turns = turns;
}

abbrev exchange : ℤ → Exchange
exchange seat = record {
  now = 2;
  started = 3;
  written = true;
  finished = 4;
  reading = 4;
  rounds = delivery (123 ∷ 125 ∷ 10 ∷ []) ∷ [];
}

abbrev runtime : ℕ → AgentRuntime
runtime n = record {
  limits = limits;
  seed = pos 7;
  processes = process (pos 0) n ∷ process (pos 1) n ∷ [];
  turn = n;
  started = true;
}

abbrev actions : List (ℤ × Json)
actions = (pos 0, null) ∷ (pos 1, null) ∷ []

first_turn_at_once : step codec true null none exchange (runtime 0) ≡ (all actions, runtime 1)
unfolding step
first_turn_at_once = refl

turn_answers_example :
    (map (λ (c : ℤ × Json). c.0) actions ≡ map seat_of (runtime 0).processes)
    × ((runtime 1).turn ≡ turn_number (next_turn (runtime 0) none))
    × (1 ≤ (runtime 1).turn)
    × ((runtime 1).turn ≤ 2)
turn_answers_example =
    turn_answers codec null none exchange (runtime 0) true actions (runtime 1) first_turn_at_once

one_turn : Match codec 1 (runtime 0) (runtime 1)
one_turn = turn true null exchange actions first_turn_at_once over

Match-is_bounded_example : ((runtime 1).turn ≡ 0 + 1) × ((runtime 1).turn ≤ 2)
Match-is_bounded_example = Match-is_bounded one_turn (omega arith)
