-- ===== src/Store/Lifecycle/History.antt =====
-- The lifecycle over whole histories of calls, and what it means for an execution that is looked up
-- by its identifier.
use brunost_judge.Prelude.{
  ℕ, String, ◌≡◌, sym, ap, ◌∙◌, subst, Bool, false, ◌⊎◌, inl, inr, Bool-cases, true, Option, some,
  List, [], ◌∷◌, arith,
}
use brunost_judge.Platform.{Platform}
use brunost_judge.Contracts.{canceled, ExecutionRequest, ExecutionResult, is_terminal}
use brunost_judge.Sql.{first_where}
use brunost_judge.Sql.Keys.{Occurs}
use brunost_judge.Store.{ok, Execution, JudgeStore, has_id, find_execution, is_queued}
use brunost_judge.Store.Submit.{submitted_row}
use brunost_judge.Store.Claim.{expire_leases, is_compatible, candidates}
use brunost_judge.Store.Claim.Scan.{scan_pages-eq-first_compatible}
use brunost_judge.Store.Finish
use brunost_judge.Store.Finish.{
  holds_lease, finished, finish_update, can_renew, renewed, cancellation, cancel_update,
}
use brunost_judge.Store.Deliveries
use brunost_judge.Store.Keys.{IsKeyed, step-IsKeyed, expire_leases-IsKeyed}
use brunost_judge.Store.Steps.{Call, step, run}
use brunost_judge.Store.Steps.Effects.{
  enqueue_effect, Submitted, submit_effect, Claimed, claim_effect, finish_effect, cancel_effect,
}
use brunost_judge.Store.Lifecycle.{
  stay, SameRequest, Evolves, SameOutcome, Extends, Extends-refl, Extends-trans, Extends-append,
  Extends-update,
}
use brunost_judge.Store.Lifecycle.Calls.{
  finished-Evolves, renewed-Evolves, cancellation-Evolves, chosen_candidate, expire_leases-Extends,
  lease_row-Extends,
}

Submitted-Extends :
    (lib : Platform) (i : String) (now : ℕ) (r : ExecutionRequest) (s s' : JudgeStore)
    → Submitted lib i now r s s'
    → Extends s.executions s'.executions
unfolding submitted_row
Submitted-Extends lib i now r s s' sub =
    subst (λ t. Extends s.executions t.executions) (sym sub.after)
      (Extends-append s.executions _ stay)

-- The row that a claim leases is in the table and queued.
pub Claimed-row :
    (w : String) (queues classes capabilities : List String) (seconds now : ℕ) (s s' : JudgeStore)
    (c : Claimed w queues classes capabilities seconds now s s') (r : Execution)
    → c.row ≡ some r
    → Occurs r (expire_leases now s).executions × (is_queued r.status ≡ true)
Claimed-row w queues classes capabilities seconds now s s' c r e =
    let (at, fits) = chosen_candidate queues classes capabilities (expire_leases now s) r (
      sym (
        scan_pages-eq-first_compatible (is_compatible capabilities (expire_leases now s))
          (candidates queues classes (expire_leases now s)))
      ∙ c.found
      ∙ ap ok e) in
    (at, ground (arith, fits))

Claimed-Extends :
    (w : String) (queues classes capabilities : List String) (seconds now : ℕ) (s s' : JudgeStore)
    → IsKeyed s
    → Claimed w queues classes capabilities seconds now s s'
    → Extends s.executions s'.executions
Claimed-Extends w queues classes capabilities seconds now s s' h c =
    subst (λ t. Extends s.executions t.executions) (sym c.after)
      (Extends-trans s.executions (expire_leases now s).executions _ (expire_leases-Extends now s) (
        lease_row-Extends w seconds now (expire_leases now s) c.row (expire_leases-IsKeyed now s h)
          (Claimed-row w queues classes capabilities seconds now s s' c)))

finish_update-Extends :
    (i : String) (r : ExecutionResult) (w : String) (now later : ℕ) (s : JudgeStore)
    → is_terminal r.status ≡ true
    → Extends s.executions (finish_update i r w now later s).executions
unfolding finish_update
finish_update-Extends i r w now later s t =
    Extends-update (holds_lease i w now) (finished r now) s.executions
      (λ e o h. finished-Evolves e now r (ground arith) t)

pub replay_row-executions :
    (o : Option Execution) (i : String) (now : ℕ) (s : JudgeStore)
    → (Deliveries.replay_row o i now s).1.executions ≡ s.executions
unfolding Deliveries.replay_row
replay_row-executions o i now s = ground arith

-- Each call moves every execution along the lifecycle.
pub step-Extends :
    (lib : Platform) (c : Call) (s : JudgeStore)
    → IsKeyed s
    → Extends s.executions (step lib c s).executions
unfolding step
step-Extends lib (Call.submit i now r) s h = elim (submit_effect lib i now r s) [
  | inl same ↦ subst (λ t. Extends s.executions t.executions) (sym same) (Extends-refl s.executions)
  | inr sub ↦ Submitted-Extends lib i now r s _ sub
]
step-Extends lib (Call.claim_next w queues classes capabilities seconds now) s h =
    elim (claim_effect w queues classes capabilities seconds now s) [
      | inl same ↦
          subst (λ t. Extends s.executions t.executions) (sym same) (Extends-refl s.executions)
      | inr c ↦ Claimed-Extends w queues classes capabilities seconds now s _ h c
    ]
step-Extends lib (Call.finish i r w now later) s h = elim (finish_effect lib i r w now later s) [
  | inl same ↦ subst (λ t. Extends s.executions t.executions) (sym same) (Extends-refl s.executions)
  | inr (stored, t, written) ↦
      subst (λ x. Extends s.executions x.executions) (sym written)
        (finish_update-Extends i stored w now later s t)
]
step-Extends lib (Call.renew_lease i w seconds now) s h =
    unfold Finish.renew_lease in
    Extends-update (can_renew i w now) _ s.executions (λ e o hit. renewed-Evolves e now _)
step-Extends lib (Call.cancel i now later) s h = elim (cancel_effect i now later s) [
  | inl same ↦ subst (λ t. Extends s.executions t.executions) (sym same) (Extends-refl s.executions)
  | inr (e, found, done) ↦
      subst (λ x. Extends s.executions x.executions) (sym done)
        (unfold cancel_update in
          Extends-update (has_id i) (cancellation now) s.executions
            (λ x o hit. cancellation-Evolves x now))
]
step-Extends lib (Call.enqueue_callback i url token now) s h =
    elim (enqueue_effect i url token now s) [
      | inl same ↦
          subst (λ t. Extends s.executions t.executions) (sym same) (Extends-refl s.executions)
      | inr written ↦
          subst (λ t. Extends s.executions t.executions) (sym written)
            (unfold Deliveries.enqueue_row in Extends-refl s.executions)
    ]
step-Extends lib (Call.claim_callback i w seconds now) s h =
    unfold Deliveries.claim_callback in Extends-refl s.executions
step-Extends lib (Call.mark_callback_delivered i now) s h =
    unfold Deliveries.mark_callback_delivered in Extends-refl s.executions
step-Extends lib (Call.mark_callback_delivered_by_owner i w now) s h =
    unfold Deliveries.mark_callback_delivered_by_owner in Extends-refl s.executions
step-Extends lib (Call.mark_callback_failed i error w now) s h =
    unfold Deliveries.mark_callback_failed in Extends-refl s.executions
step-Extends lib (Call.replay_callback i now) s h =
    unfold Deliveries.replay_callback in
    subst (λ t. Extends s.executions t) (sym (replay_row-executions (find_execution i s) i now s))
      (Extends-refl s.executions)

-- Over any history of calls on a store with unique keys, every execution keeps its request and moves
-- along the lifecycle, a terminal one keeps its status and its published outcome, a requested
-- cancellation stays requested, and the status of an added one can be reached from the queue.
pub run-Extends :
    (lib : Platform) (cs : List Call) (s : JudgeStore)
    → IsKeyed s
    → Extends s.executions (run lib cs s).executions
unfolding run
run-Extends lib [] s h = Extends-refl s.executions
run-Extends lib (c ∷ cs) s h =
    Extends-trans s.executions (step lib c s).executions _ (step-Extends lib c s h)
      (run-Extends lib cs (step lib c s) (step-IsKeyed lib c s h))

-- A lookup by columns of the request finds the execution that it found, further on.
module _ (q : Execution → Bool) (columns : (e f : Execution) → SameRequest e f → q f ≡ q e) where
  pub Extends-find :
      (es fs : List Execution) (e : Execution)
      → Extends es fs
      → first_where q es ≡ some e
      → (f : Execution) × (first_where q fs ≡ some f) × Evolves e f
  unfolding first_where
  Extends-find [] fs e x found = absurd (cc)
  Extends-find (a ∷ es) [] e x found = absurd x
  Extends-find (a ∷ es) (b ∷ fs) e x found = elim (Bool-cases (q a)) [
    | inl hit ↦
        let same : a ≡ e = ground arith in
        (b, ground (arith, columns a b x.0.request), subst (λ y. Evolves y b) same x.0)
    | inr miss ↦
        let (f, found', moved) = Extends-find es fs e x.1 (ground arith) in
        (f, ground (arith, columns a b x.0.request), moved)
  ]

pub has_id_column : (i : String) (e f : Execution) → SameRequest e f → has_id i f ≡ has_id i e
has_id_column i e f h = rw h.execution_id

pub run-find :
    (lib : Platform) (cs : List Call) (s : JudgeStore) (i : String) (e : Execution)
    → IsKeyed s
    → find_execution i s ≡ some e
    → (f : Execution) × (find_execution i (run lib cs s) ≡ some f) × Evolves e f
run-find lib cs s i e h found =
    Extends-find (has_id i) (has_id_column i) _ _ e (run-Extends lib cs s h) found

-- A terminal execution is found under its identifier after any calls, with the status and the outcome
-- that it had.
pub terminal_is_final :
    (lib : Platform) (cs : List Call) (s : JudgeStore) (i : String) (e : Execution)
    → IsKeyed s
    → find_execution i s ≡ some e
    → is_terminal e.status ≡ true
    → (f : Execution) × (find_execution i (run lib cs s) ≡ some f) × SameOutcome e f
terminal_is_final lib cs s i e h found t =
    let (f, found', moved) = run-find lib cs s i e h found in (f, found', moved.frozen t)

-- Once the cancellation of an execution that has not ended is requested, it ends, whatever is called,
-- only as canceled.
pub cancellation_wins :
    (lib : Platform) (cs : List Call) (s : JudgeStore) (i : String) (e : Execution)
    → IsKeyed s
    → find_execution i s ≡ some e
    → e.cancel_requested ≡ true
    → is_terminal e.status ≡ false
    → (f : Execution) × (find_execution i (run lib cs s) ≡ some f)
      × ((is_terminal f.status ≡ false) ⊎ (f.status ≡ canceled))
cancellation_wins lib cs s i e h found asked running_now =
    let (f, found', moved) = run-find lib cs s i e h found in
    (
      f,
      found',
      elim (Bool-cases (is_terminal f.status)) [
        | inl ended_now ↦ inr (moved.cancel_wins asked running_now ended_now)
        | inr still_open ↦ inl still_open
      ],
    )
