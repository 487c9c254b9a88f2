-- ===== src/Store/Lifecycle.antt =====
-- The lifecycle of an execution, as docs/architecture.md draws it, and the table of executions under
-- it: rows follow the lifecycle, keep their request, and a terminal row keeps its result.
pub mod Calls
pub mod History
pub mod Arrows
pub mod Course
use brunost_judge.Prelude.{
  ◌≡◌, refl, sym, ◌∙◌, ◌≢◌, Bool, true, false, Bool-cases, inl, inr, List, [], ◌∷◌, ◌++◌, All,
  arith, if◌then◌else◌,
}
use brunost_judge.Contracts.{
  Status, queued, running, completed, failed, canceled, other, is_terminal,
}
use brunost_judge.Sql.{update_where}
use brunost_judge.Sql.Keys.{Occurs}
use brunost_judge.Store.{Execution, is_queued, is_running}

-- one arrow of the diagram
pub data Lifecycle : Status → Status → Type 0 where
  claimed : Lifecycle queued running
  lease_lost : Lifecycle running queued
  dropped : Lifecycle queued canceled
  ended : {t : Status} → is_terminal t ≡ true → Lifecycle running t

pub data LifecyclePath (a : Status) : Status → Type 0 where
  stay : LifecyclePath a a
  next : {b c : Status} → LifecyclePath a b → Lifecycle b c → LifecyclePath a c

pub path_trans : {a b c : Status} → LifecyclePath a b → LifecyclePath b c → LifecyclePath a c
path_trans p stay = p
path_trans p (next q l) = next (path_trans p q) l

source_not_terminal : {a b : Status} → Lifecycle a b → is_terminal a ≡ false
source_not_terminal claimed = refl
source_not_terminal lease_lost = refl
source_not_terminal dropped = refl
source_not_terminal (ended h) = refl

-- No arrow leaves a terminal status.
pub terminal_path : {a b : Status} → is_terminal a ≡ true → LifecyclePath a b → b ≡ a
terminal_path h stay = refl
terminal_path h (next p l) = cc (terminal_path h p, source_not_terminal l)

-- the columns of a row that no call changes
pub record SameRequest (e f : Execution) : Type 0 where
  pub execution_id : f.execution_id ≡ e.execution_id
  pub idempotency_key : f.idempotency_key ≡ e.idempotency_key
  pub task_ref : f.task_ref ≡ e.task_ref
  pub submission_path : f.submission_path ≡ e.submission_path
  pub callback_url : f.callback_url ≡ e.callback_url
  pub callback_token : f.callback_token ≡ e.callback_token
  pub request_fingerprint : f.request_fingerprint ≡ e.request_fingerprint
  pub metadata : f.metadata ≡ e.metadata
  pub created_at : f.created_at ≡ e.created_at
  pub queue : f.queue ≡ e.queue
  pub resource_class : f.resource_class ≡ e.resource_class
  pub priority : f.priority ≡ e.priority

-- the published outcome
pub record SameOutcome (e f : Execution) : Type 0 where
  pub status : f.status ≡ e.status
  pub score : f.score ≡ e.score
  pub metrics : f.metrics ≡ e.metrics
  pub scores : f.scores ≡ e.scores
  pub winner : f.winner ≡ e.winner
  pub artifacts : f.artifacts ≡ e.artifacts
  pub failure_reason : f.failure_reason ≡ e.failure_reason

pub record Evolves (e f : Execution) : Type 0 where
  pub request : SameRequest e f
  pub path : LifecyclePath e.status f.status
  pub frozen : is_terminal e.status ≡ true → SameOutcome e f
  pub cancel_kept : e.cancel_requested ≡ true → f.cancel_requested ≡ true
  pub cancel_wins :
      e.cancel_requested ≡ true
      → is_terminal e.status ≡ false
      → is_terminal f.status ≡ true
      → f.status ≡ canceled

SameRequest-refl : (e : Execution) → SameRequest e e
SameRequest-refl e = ground arith

SameOutcome-refl : (e : Execution) → SameOutcome e e
SameOutcome-refl e = ground arith

SameRequest-trans : (e f g : Execution) → SameRequest e f → SameRequest f g → SameRequest e g
SameRequest-trans e f g h k = record {
  execution_id = k.execution_id ∙ h.execution_id;
  idempotency_key = k.idempotency_key ∙ h.idempotency_key;
  task_ref = k.task_ref ∙ h.task_ref;
  submission_path = k.submission_path ∙ h.submission_path;
  callback_url = k.callback_url ∙ h.callback_url;
  callback_token = k.callback_token ∙ h.callback_token;
  request_fingerprint = k.request_fingerprint ∙ h.request_fingerprint;
  metadata = k.metadata ∙ h.metadata;
  created_at = k.created_at ∙ h.created_at;
  queue = k.queue ∙ h.queue;
  resource_class = k.resource_class ∙ h.resource_class;
  priority = k.priority ∙ h.priority;
}

SameOutcome-trans : (e f g : Execution) → SameOutcome e f → SameOutcome f g → SameOutcome e g
SameOutcome-trans e f g h k = record {
  status = k.status ∙ h.status;
  score = k.score ∙ h.score;
  metrics = k.metrics ∙ h.metrics;
  scores = k.scores ∙ h.scores;
  winner = k.winner ∙ h.winner;
  artifacts = k.artifacts ∙ h.artifacts;
  failure_reason = k.failure_reason ∙ h.failure_reason;
}

pub Evolves-refl : (e : Execution) → Evolves e e
Evolves-refl e = record {
  request = SameRequest-refl e;
  path = stay;
  frozen = λ h. SameOutcome-refl e;
  cancel_kept = λ h. h;
  cancel_wins = λ c open_now ended_now. absurd (cc (open_now, ended_now));
}

cancel_wins_later :
    (e f g : Execution)
    → Evolves e f
    → Evolves f g
    → e.cancel_requested ≡ true
    → is_terminal e.status ≡ false
    → is_terminal g.status ≡ true
    → g.status ≡ canceled
cancel_wins_later e f g h k c open_now ended_now = elim (Bool-cases (is_terminal f.status)) [
  | inl t ↦ (k.frozen t).status ∙ h.cancel_wins c open_now t
  | inr o ↦ k.cancel_wins (h.cancel_kept c) o ended_now
]

pub Evolves-trans : (e f g : Execution) → Evolves e f → Evolves f g → Evolves e g
Evolves-trans e f g h k = record {
  request = SameRequest-trans e f g h.request k.request;
  path = path_trans h.path k.path;
  frozen = λ t. let o = h.frozen t in SameOutcome-trans e f g o (k.frozen (rw o.status t));
  cancel_kept = λ c. k.cancel_kept (h.cancel_kept c);
  cancel_wins = cancel_wins_later e f g h k;
}

-- The rows of the first table evolve in place, and the statuses of the rows behind them can be
-- reached from the queue.
abbrev pub Extends : List Execution → List Execution → Type 0
Extends [] new = All (λ e. LifecyclePath queued e.status) new
Extends (e ∷ es) [] = ⊥
Extends (e ∷ es) (f ∷ fs) = Evolves e f × Extends es fs

pub Extends-refl : (es : List Execution) → Extends es es
Extends-refl [] = tt
Extends-refl (e ∷ es) = (Evolves-refl e, Extends-refl es)

Extends-new :
    (es fs : List Execution)
    → All (λ e. LifecyclePath queued e.status) es
    → Extends es fs
    → All (λ e. LifecyclePath queued e.status) fs
Extends-new [] fs h x = x
Extends-new (e ∷ es) [] h x = absurd x
Extends-new (e ∷ es) (f ∷ fs) h x = (path_trans h.0 x.0.path, Extends-new es fs h.1 x.1)

pub Extends-trans : (es fs gs : List Execution) → Extends es fs → Extends fs gs → Extends es gs
Extends-trans [] fs gs h k = Extends-new fs gs h k
Extends-trans (e ∷ es) [] gs h k = absurd h
Extends-trans (e ∷ es) (f ∷ fs) [] h k = absurd k
Extends-trans (e ∷ es) (f ∷ fs) (g ∷ gs) h k =
    (Evolves-trans e f g h.0 k.0, Extends-trans es fs gs h.1 k.1)

pub Extends-append :
    (es : List Execution) (e : Execution)
    → LifecyclePath queued e.status
    → Extends es (es ++ e ∷ [])
Extends-append [] e h = (h, tt)
Extends-append (x ∷ es) e h = (Evolves-refl x, Extends-append es e h)

pub Extends-update :
    (p : Execution → Bool) (f : Execution → Execution) (es : List Execution)
    → ((e : Execution) → Occurs e es → p e ≡ true → Evolves e (f e))
    → Extends es (update_where p f es)
unfolding update_where
Extends-update p f [] moves = tt
Extends-update p f (e ∷ es) moves = elim (Bool-cases (p e)) [
  | inl hit ↦ rw hit (moves e (inl refl) hit, Extends-update p f es (λ x o. moves x (inr o)))
  | inr miss ↦ rw miss (Evolves-refl e, Extends-update p f es (λ x o. moves x (inr o)))
]
