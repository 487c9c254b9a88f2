-- ===== src/Agents/Runtime.antt =====
-- `AgentRuntime` of src/grader/agent_runtime.py: one process per seat, in the order of the seats, and
-- the turns of a match. What the requests meet is a function of the seat.
pub mod Turns
pub mod Match
use brunost_judge.Prelude.{
  ℕ, suc, ◌+◌, String, Bool, true, false, not, ◌&&◌, ◌||◌, Option, none, some, List, [], ◌∷◌, map,
  length, leb, ltb, ◌==◌, if◌then◌else◌,
}
use brunost_judge.Prelude.Int.{ℤ, pos, negsuc, leb_ℤ, eq_ℤ}
use brunost_judge.Json.{Json, num, int, str, Fields, end, field, get, get_or_null, json_eq}
use brunost_judge.Sql.{exists_where, order_by}
use brunost_judge.Protocol.{Codec}
use brunost_judge.Agents.Reader.{
  AgentError, runtime_error, protocol_error, timeout, Read, got, error, waiting,
}
use brunost_judge.Agents.Process.{AgentLimits, AgentSpec, AgentProcess, Exchange, request}

-- `len(set(seats)) == len(seats)`
unfoldable pub seats_unique : List AgentSpec → Bool
unfolding exists_where
seats_unique [] = true
seats_unique (s ∷ ss) = not (exists_where (λ t. eq_ℤ t.seat s.seat) ss) && seats_unique ss

-- `AgentRuntime.__init__`, which raises ValueError on none: the specs in the order of their seats
unfoldable pub seated : List AgentSpec → Option (List AgentSpec)
unfolding seats_unique order_by
seated [] = none
seated (s ∷ ss) =
    if seats_unique (s ∷ ss) then some (order_by (λ a b. leb_ℤ a.seat b.seat) (s ∷ ss)) else none

-- the processes are kept in the order of their seats
pub record AgentRuntime : Type 0 where
  pub limits : AgentLimits
  pub seed : ℤ
  pub processes : List AgentProcess
  pub turn : ℕ
  pub started : Bool

-- the message of a turn to one seat
unfoldable pub turn_message : ℤ → ℕ → Json → AgentSpec → Fields
turn_message seed turn state s = field "type" (str "turn") (
    field "turn" (num (int (pos turn))) (
      field "state" state (
        field "seed" (num (int seed))
          (field "agent_id" (str s.agent_id) (field "seat" (num (int s.seat)) end)))))

pub data Answers (A : Type 0) : Type 0 where
  all : A → Answers A
  failed : AgentError → Answers A

-- a read that is still waiting is no answer; enough rounds leave none
unfoldable pub answer_of : Read → Answers Fields
answer_of (got m) = all m
answer_of (error e) = failed e
answer_of waiting = failed runtime_error

abbrev pub with_answer : Fields → Answers (List Fields) → Answers (List Fields)
with_answer m (all ms) = all (m ∷ ms)
with_answer m (failed e) = failed e

-- how one seat answers, and what is left of its process
abbrev pub Asking : Type 0
Asking = AgentProcess → Read × AgentProcess

module _ (ask : Asking) where
  -- one seat after the other; the first that fails ends the turn
  unfoldable pub ask_in_order : List AgentProcess → Answers (List Fields) × List AgentProcess
  unfolding answer_of
  ask_in_order [] = (all [], [])
  ask_in_order (p ∷ ps) =
      let (r, p') = ask p in
      let (rest, ps') = ask_in_order ps in
      elim (answer_of r) [ failed e ↦ (failed e, p' ∷ ps) | all m ↦ (with_answer m rest, p' ∷ ps') ]

  -- every seat at once; the first failure in the order of the seats is raised
  unfoldable pub ask_at_once : List AgentProcess → Answers (List Fields) × List AgentProcess
  unfolding answer_of
  ask_at_once [] = (all [], [])
  ask_at_once (p ∷ ps) =
      let (r, p') = ask p in
      let (rest, ps') = ask_at_once ps in
      (elim (answer_of r) [ failed e ↦ failed e | all m ↦ with_answer m rest ], p' ∷ ps')

-- `response.get("type") != "action" or "action" not in response`
unfoldable pub action_of : Fields → Option Json
unfolding get get_or_null json_eq
action_of m = if json_eq (get_or_null "type" m) (str "action") then get "action" m else none

abbrev pub record_turn : AgentProcess → AgentProcess
record_turn p = record p { turns = p.turns + 1 }

abbrev pub with_action : ℤ → Json → Answers (List (ℤ × Json)) → Answers (List (ℤ × Json))
with_action seat a (all as') = all ((seat, a) ∷ as')
with_action seat a (failed e) = failed e

-- the loop over the responses, which records the turn of each seat that sent an action
unfoldable pub collect :
    List Fields → List AgentProcess → Answers (List (ℤ × Json)) × List AgentProcess
unfolding action_of
collect [] ps = (all [], ps)
collect (m ∷ ms) [] = (all [], [])
collect (m ∷ ms) (p ∷ ps) =
    let (rest, ps') = collect ms ps in
    elim (action_of m) [
      | none ↦ (failed protocol_error, p ∷ ps)
      | some a ↦ (with_action p.spec.seat a rest, record_turn p ∷ ps')
    ]

-- the end of `step`, for the answers that came
unfoldable pub finish_step :
    AgentRuntime
    → Answers (List Fields) × List AgentProcess
    → Answers (List (ℤ × Json)) × AgentRuntime
unfolding collect
finish_step a (failed e, ps) = (failed e, record a { processes = ps })
finish_step a (all ms, ps) =
    let (actions, ps') = collect ms ps in (actions, record a { processes = ps' })

-- `self._turn + 1 if turn is None else int(turn)`
unfoldable pub next_turn : AgentRuntime → Option ℤ → ℤ
next_turn a none = pos (a.turn + 1)
next_turn a (some t) = t

abbrev pub turn_in_range : AgentLimits → ℤ → Bool
turn_in_range l (pos n) = leb 1 n && leb n l.max_turns
turn_in_range l (negsuc n) = false

abbrev pub turn_number : ℤ → ℕ
turn_number (pos n) = n
turn_number (negsuc n) = 0

-- the request of a turn
unfoldable pub ask_turn : Codec → AgentLimits → (AgentSpec → Fields) → (ℤ → Exchange) → Asking
unfolding request
ask_turn codec l message x p = request codec l p (message p.spec) none (x p.spec.seat)

-- `step`; the exchanges are those of this turn in its mode, so what the clock and the pipes do to a
-- seat that is asked at once need not be what they do to one that waits for the others
unfoldable pub step :
    Codec
    → Bool
    → Json
    → Option ℤ
    → (ℤ → Exchange)
    → AgentRuntime
    → Answers (List (ℤ × Json)) × AgentRuntime
unfolding next_turn turn_message ask_turn ask_in_order ask_at_once finish_step
step codec simultaneous state turn x a =
    let t = next_turn a turn in
    let a' : AgentRuntime = record a { turn = turn_number t } in
    let ask = ask_turn codec a.limits (turn_message a.seed (turn_number t) state) x in
    if not a.started
    then (failed runtime_error, a)
    else if not (turn_in_range a.limits t)
    then (failed timeout, a)
    else finish_step a'
        (if simultaneous then ask_at_once ask a.processes else ask_in_order ask a.processes)
