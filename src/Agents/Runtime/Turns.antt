-- ===== src/Agents/Runtime/Turns.antt =====
-- The turns of a match: what a turn returns, in either mode, and how many turns there are.
use brunost_judge.Prelude.{
  ℕ, suc, ◌≤◌, ◌≡◌, refl, sym, ap, ◌∙◌, ◌⊎◌, inl, inr, Bool, true, false, Bool-cases, Option, List,
  [], ◌∷◌, map, length, Option-cases, if◌then◌else◌, arith,
}
use brunost_judge.Prelude.Int.{ℤ, pos, negsuc}
use brunost_judge.Json.{Json, Fields}
use brunost_judge.Protocol.{Codec}
use brunost_judge.Agents.Reader.{AgentError}
use brunost_judge.Agents.Process.{AgentLimits, AgentSpec, AgentProcess, Exchange, request, exchange}
use brunost_judge.Agents.Runtime.{
  AgentRuntime, Asking, ask_turn, Answers, all, failed, answer_of, ask_in_order, ask_at_once,
  action_of, collect, finish_step, next_turn, turn_in_range, turn_number, turn_message, step,
}

abbrev pub seat_of : AgentProcess → ℤ
seat_of p = p.spec.seat

Answers-cases :
    {A : Type 0} (r : Answers A) → ((e : AgentError) × (r ≡ failed e)) ⊎ ((a : A) × (r ≡ all a))
Answers-cases (failed e) = inl (e, refl)
Answers-cases (all a) = inr (a, refl)

module _ (ask : Asking) where
  -- When no seat fails, the seats that are asked at once answer as they do one after the other.
  in_order-at_once :
      (ps ps' : List AgentProcess) (ms : List Fields)
      → ask_at_once ask ps ≡ (all ms, ps')
      → ask_in_order ask ps ≡ (all ms, ps')
  unfolding ask_in_order ask_at_once
  in_order-at_once [] ps' ms h = h
  in_order-at_once (p ∷ ps) ps' ms h = elim (Answers-cases (answer_of (ask p).0)) [
    | inl (e, bad) ↦ absurd (ground (arith, bad, h))
    | inr (m, good) ↦ elim (Answers-cases (ask_at_once ask ps).0) [
      | inl (e, bad) ↦ absurd (ground (arith, good, bad, h))
      | inr (rest, fine) ↦
          let ih =
            in_order-at_once ps (ask_at_once ask ps).1 rest
              (λ i. (fine i, (ask_at_once ask ps).1)) in
          ground (arith, good, fine, ih, h)
    ]
  ]

  -- The answers come from as many seats as there are, and the processes keep their seats.
  in_order-seats :
      ((p : AgentProcess) → seat_of (ask p).1 ≡ seat_of p)
      → (ps ps' : List AgentProcess) (ms : List Fields) → ask_in_order ask ps ≡ (all ms, ps')
      → (map seat_of ps' ≡ map seat_of ps) × (length ms ≡ length ps')
  unfolding ask_in_order
  in_order-seats keep [] ps' ms h =
      let e : [] ≡ ps' = ap (λ p. p.1) h in
      let m : [] ≡ ms = ground (arith, h) in
      (ap (map seat_of) (sym e), ap length (sym m) ∙ ap length e)
  in_order-seats keep (p ∷ ps) ps' ms h = elim (Answers-cases (answer_of (ask p).0)) [
    | inl (e, bad) ↦ absurd (ground (arith, bad, h))
    | inr (m, good) ↦ elim (Answers-cases (ask_in_order ask ps).0) [
      | inl (e, bad) ↦ absurd (ground (arith, good, bad, h))
      | inr (rest, fine) ↦
          let ih =
            in_order-seats keep ps (ask_in_order ask ps).1 rest
              (λ i. (fine i, (ask_in_order ask ps).1)) in
          let e : (ask p).1 ∷ (ask_in_order ask ps).1 ≡ ps' = ground (arith, good, fine, h) in
          let read : m ∷ rest ≡ ms = ground (arith, good, fine, h) in
          (
            ap (map seat_of) (sym e) ∙ (λ i. keep p i ∷ ih.0 i),
            ap length (sym read) ∙ ap suc ih.1 ∙ ap length e,
          )
    ]
  ]

-- With an answer for every seat, the actions stand in the order of the seats.
collect-seats :
    (ms : List Fields) (ps ps' : List AgentProcess) (actions : List (ℤ × Json))
    → length ms ≡ length ps
    → collect ms ps ≡ (all actions, ps')
    → map (λ (a : ℤ × Json). a.0) actions ≡ map seat_of ps
unfolding collect
collect-seats [] [] ps' actions same h =
    let none_left : [] ≡ actions = ground (arith, h) in ap (map (λ a. a.0)) (sym none_left)
collect-seats [] (p ∷ ps) ps' actions same h = absurd (omega arith)
collect-seats (m ∷ ms) [] ps' actions same h = absurd (omega arith)
collect-seats (m ∷ ms) (p ∷ ps) ps' actions same h = elim (Option-cases (action_of m)) [
  | inl none_sent ↦ absurd (ground (arith, none_sent, h))
  | inr (a, sent) ↦ elim (Answers-cases (collect ms ps).0) [
    | inl (e, bad) ↦ absurd (ground (arith, sent, bad, h))
    | inr (rest, fine) ↦
        let ih =
          collect-seats ms ps (collect ms ps).1 rest (omega arith)
            (λ i. (fine i, (collect ms ps).1)) in
        let acts : (seat_of p, a) ∷ rest ≡ actions = ground (arith, sent, fine, h) in
        ap (map (λ c. c.0)) (sym acts) ∙ (λ i. seat_of p ∷ ih i)
  ]
]

module _ (codec : Codec) (l : AgentLimits) (message : AgentSpec → Fields) (x : ℤ → Exchange) where
  request-seat : (p : AgentProcess) → seat_of (ask_turn codec l message x p).1 ≡ seat_of p
  unfolding ask_turn request exchange
  request-seat p = ground arith

finished :
    (a a' : AgentRuntime) (r : Answers (List Fields) × List AgentProcess)
    (actions : List (ℤ × Json))
    → finish_step a r ≡ (all actions, a')
    → (ms : List Fields) × (r.0 ≡ all ms)
      × ((collect ms r.1).0 ≡ all actions)
      × (a'.turn ≡ a.turn)
      × (a'.limits ≡ a.limits)
unfolding finish_step
finished a a' (failed e, ps) actions h = absurd (ground (arith, h))
finished a a' (all ms, ps) actions h = (
  ms,
  refl,
  ap (λ p. p.0) h,
  ap (λ (p : Answers (List (ℤ × Json)) × AgentRuntime). p.1.turn) (sym h),
  ap (λ (p : Answers (List (ℤ × Json)) × AgentRuntime). p.1.limits) (sym h),
)

module _ (codec : Codec) (state : Json) (turn : Option ℤ) (x : ℤ → Exchange)
    (a : AgentRuntime) where
  abbrev number : ℕ
  number = turn_number (next_turn a turn)

  abbrev asking : Asking
  asking = ask_turn codec a.limits (turn_message a.seed number state) x

  abbrev asked : Bool → Answers (List Fields) × List AgentProcess
  asked simultaneous =
      if simultaneous then ask_at_once asking a.processes else ask_in_order asking a.processes

  in_range :
      (z : ℤ)
      → turn_in_range a.limits z ≡ true
      → (1 ≤ turn_number z) × (turn_number z ≤ a.limits.max_turns)
  in_range (pos n) h = ground arith
  in_range (negsuc n) h = absurd (cc)

  turn_runs :
      (simultaneous : Bool)
      → a.started ≡ true
      → turn_in_range a.limits (next_turn a turn) ≡ true
      → step codec simultaneous state turn x a
        ≡ finish_step (record a { turn = number }) (asked simultaneous)
  unfolding step
  turn_runs simultaneous on within = rw (on, within) refl

  stepped :
      (simultaneous : Bool) (actions : List (ℤ × Json)) (a' : AgentRuntime)
      → step codec simultaneous state turn x a ≡ (all actions, a')
      → (a.started ≡ true)
        × (turn_in_range a.limits (next_turn a turn) ≡ true)
        × (finish_step (record a { turn = number }) (asked simultaneous) ≡ (all actions, a'))
  unfolding step
  stepped simultaneous actions a' h = elim (Bool-cases a.started) [
    | inr idle ↦ absurd (ground (arith, idle, h))
    | inl on ↦ elim (Bool-cases (turn_in_range a.limits (next_turn a turn))) [
      | inr out ↦ absurd (ground (arith, on, out, h))
      | inl within ↦ (on, within, sym (turn_runs simultaneous on within) ∙ h)
    ]
  ]

  -- the answers of a turn that succeeds, in the order of the seats
  in_turn :
      (simultaneous : Bool) (ms : List Fields) (ps : List AgentProcess)
      → asked simultaneous ≡ (all ms, ps)
      → ask_in_order asking a.processes ≡ (all ms, ps)
  in_turn true ms ps h = in_order-at_once asking a.processes ps ms h
  in_turn false ms ps h = h

  -- A turn that succeeds, whether the seats are asked one after the other or all at once, has one
  -- action for each seat, in the order of the seats, and its number is the one that was asked for,
  -- within the limit.
  pub turn_answers :
      (simultaneous : Bool) (actions : List (ℤ × Json)) (a' : AgentRuntime)
      → step codec simultaneous state turn x a ≡ (all actions, a')
      → (map (λ (c : ℤ × Json). c.0) actions ≡ map seat_of a.processes)
        × (a'.turn ≡ number)
        × (1 ≤ a'.turn)
        × (a'.turn ≤ a.limits.max_turns)
  turn_answers simultaneous actions a' h =
      let (on, within, ran) = stepped simultaneous actions a' h in
      let (ms, answered, sent, numbered, limited) =
        finished (record a { turn = number }) a' (asked simultaneous) actions ran in
      let bounds = in_range (next_turn a turn) within in
      let played = (asked simultaneous).1 in
      let (kept, counted) =
        in_order-seats asking (request-seat codec a.limits (turn_message a.seed number state) x)
          a.processes played ms (in_turn simultaneous ms played (λ i. (answered i, played))) in
      (
        collect-seats ms played (collect ms played).1 actions counted
              (λ i. (sent i, (collect ms played).1))
            ∙ kept,
        numbered,
        rw numbered bounds.0,
        rw numbered bounds.1,
      )

  -- A turn that succeeds, in either mode, has the number that was asked for, within the limit, which
  -- stays the same.
  pub turn_counts :
      (simultaneous : Bool) (actions : List (ℤ × Json)) (a' : AgentRuntime)
      → step codec simultaneous state turn x a ≡ (all actions, a')
      → (a'.turn ≡ number) × (number ≤ a.limits.max_turns) × (a'.limits ≡ a.limits)
  turn_counts simultaneous actions a' h =
      let (on, within, ran) = stepped simultaneous actions a' h in
      let (ms, answered, sent, numbered, limited) =
        finished (record a { turn = number }) a' (asked simultaneous) actions ran in
      (numbered, (in_range (next_turn a turn) within).1, limited)
