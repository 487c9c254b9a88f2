-- ===== src/Agents/Runtime/Match.antt =====
-- A match is a sequence of turns that succeed; the limit on turns bounds its length, if the runtime
-- counts the turns itself.
use brunost_judge.Prelude.{ℕ, suc, ◌+◌, ◌≤◌, ◌≡◌, refl, ap, ◌∙◌, Bool, none, List, arith}
use brunost_judge.Prelude.Int.{ℤ}
use brunost_judge.Json.{Json}
use brunost_judge.Protocol.{Codec}
use brunost_judge.Agents.Process.{Exchange}
use brunost_judge.Agents.Runtime.{AgentRuntime, all, step, next_turn}
use brunost_judge.Agents.Runtime.Turns.{turn_counts}

-- a number of turns that succeed, each without a number given to `step`, so that it has the number
-- after that of the turn before; a referee that passes `turn=` may use a number again
pub data Match (codec : Codec) : ℕ → AgentRuntime → AgentRuntime → Type 0 where
  over : {a : AgentRuntime} → Match codec 0 a a
  turn :
      {n : ℕ} {a b c : AgentRuntime} (simultaneous : Bool) (state : Json) (x : ℤ → Exchange)
      (actions : List (ℤ × Json))
      → step codec simultaneous state none x a ≡ (all actions, b)
      → Match codec n b c
      → Match codec (suc n) a c

-- In a match of n turns for which `step` is given no turn number, from a runtime that has not passed
-- the limit on turns, the runtime counts n turns more, and has not passed the limit: so such a match
-- has at most as many turns as the limit leaves.
pub Match-is_bounded :
    {codec : Codec} {n : ℕ} {a b : AgentRuntime}
    → Match codec n a b
    → a.turn ≤ a.limits.max_turns
    → (b.turn ≡ a.turn + n) × (b.turn ≤ a.limits.max_turns)
Match-is_bounded over le = (omega arith, le)
Match-is_bounded {codec = codec} {a = a} (turn {b = b} simultaneous state x actions played rest)
      le =
    let counts = turn_counts codec state none x a simultaneous actions b played in
    let one_more : b.turn ≡ a.turn + 1 = counts.0 ∙ (unfold next_turn in refl) in
    let limit : b.limits.max_turns ≡ a.limits.max_turns = ap (λ l. l.max_turns) counts.2 in
    let further = Match-is_bounded rest (omega (arith, limit, counts.0, counts.1)) in
    (omega (arith, further.0, one_more), omega (arith, further.1, limit))
