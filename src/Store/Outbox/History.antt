-- ===== src/Store/Outbox/History.antt =====
-- The outbox over whole histories of calls.
use brunost_judge.Prelude.{
  ℕ, String, ◌≡◌, refl, sym, ◌∙◌, subst, inl, inr, Bool-cases, Bool, not, ◌&&◌, Option, none, some,
  List, [], ◌∷◌, ◌==◌,
}
use brunost_judge.Platform.{Platform}
use brunost_judge.Contracts.{is_terminal}
use brunost_judge.Sql.{update_where}
use brunost_judge.Sql.Update.{exists-update}
use brunost_judge.Sql.Keys.{All-Occurs, All-of_update}
use brunost_judge.Store.{Execution, Delivery, JudgeStore, is_for, find_execution}
use brunost_judge.Store.Claim.{expire_leases}
use brunost_judge.Store.Finish
use brunost_judge.Store.Finish.{can_renew, renewed}
use brunost_judge.Store.Deliveries
use brunost_judge.Store.Keys.{IsKeyed, step-IsKeyed}
use brunost_judge.Store.Steps.{Call, step, run}
use brunost_judge.Store.Steps.Effects.{
  enqueue_effect, submit_effect, claim_effect, finish_effect, cancel_effect,
}
use brunost_judge.Store.Outbox.{IsAnnounced, HasOutbox, upsert-keeps}
use brunost_judge.Store.Outbox.Calls.{
  more_deliveries, Submitted-HasOutbox, expire_leases-HasOutbox, lease_row-HasOutbox,
  finish_update-HasOutbox, cancel_update-HasOutbox,
}

-- an UPDATE of the deliveries that keeps their key
update_deliveries-HasOutbox :
    (p : Delivery → Bool) (f : Delivery → Delivery) (s : JudgeStore)
    → ((d : Delivery) → (f d).execution_id ≡ d.execution_id)
    → HasOutbox s
    → HasOutbox (record s { callback_deliveries = update_where p f s.callback_deliveries })
update_deliveries-HasOutbox p f s keep h =
    more_deliveries s.callback_deliveries _ s.executions
      (λ i x. exists-update (is_for i) p f (λ d. rw keep) s.callback_deliveries ∙ x) h

replay_url-HasOutbox :
    (url : Option String) (e : Execution) (i : String) (now : ℕ) (s : JudgeStore)
    → HasOutbox s
    → HasOutbox (Deliveries.replay_url url e i now s).1
unfolding Deliveries.replay_url
replay_url-HasOutbox none e i now s h = h
replay_url-HasOutbox (some url) e i now s h =
    elim (Bool-cases (is_terminal e.status && not (url == ""))) [
      | inl due ↦ rw due (
          more_deliveries s.callback_deliveries _ s.executions
            (λ j x. upsert-keeps _ _ _ j s.callback_deliveries (λ d. refl) x) h)
      | inr not_due ↦ rw not_due h
    ]

replay_row-HasOutbox :
    (o : Option Execution) (i : String) (now : ℕ) (s : JudgeStore)
    → HasOutbox s
    → HasOutbox (Deliveries.replay_row o i now s).1
unfolding Deliveries.replay_row
replay_row-HasOutbox none i now s h = h
replay_row-HasOutbox (some e) i now s h = replay_url-HasOutbox e.callback_url e i now s h

renewed-HasOutbox :
    (i w : String) (until now : ℕ) (s : JudgeStore)
    → HasOutbox s
    → HasOutbox (Finish.update_executions (can_renew i w now) (renewed until now) s)
renewed-HasOutbox i w until now s h =
    All-of_update (can_renew i w now) (renewed until now) s.executions
      (λ e o. All-Occurs (IsAnnounced s.callback_deliveries) s.executions e h o)
      (λ e o hit. All-Occurs (IsAnnounced s.callback_deliveries) s.executions e h o)

-- Each call keeps the outbox complete.
pub step-HasOutbox :
    (lib : Platform) (c : Call) (s : JudgeStore)
    → IsKeyed s
    → HasOutbox s
    → HasOutbox (step lib c s)
unfolding step
step-HasOutbox lib (Call.submit i now r) s k h = elim (submit_effect lib i now r s) [
  | inl same ↦ subst HasOutbox (sym same) h
  | inr sub ↦ Submitted-HasOutbox lib i now r s _ h sub
]
step-HasOutbox lib (Call.claim_next w queues classes capabilities seconds now) s k h =
    elim (claim_effect w queues classes capabilities seconds now s) [
      | inl same ↦ subst HasOutbox (sym same) h
      | inr c ↦ subst HasOutbox (sym c.after) (
          lease_row-HasOutbox w seconds now (expire_leases now s) c.row
            (expire_leases-HasOutbox now s h))
    ]
step-HasOutbox lib (Call.finish i r w now later) s k h =
    elim (finish_effect lib i r w now later s) [
      | inl same ↦ subst HasOutbox (sym same) h
      | inr (stored, t, written) ↦
          subst HasOutbox (sym written) (finish_update-HasOutbox i stored w now later s k h)
    ]
step-HasOutbox lib (Call.renew_lease i w seconds now) s k h =
    unfold Finish.renew_lease in renewed-HasOutbox i w _ now s h
step-HasOutbox lib (Call.cancel i now later) s k h = elim (cancel_effect i now later s) [
  | inl same ↦ subst HasOutbox (sym same) h
  | inr (e, found, done) ↦
      subst HasOutbox (sym done) (cancel_update-HasOutbox i now later s e k found h)
]
step-HasOutbox lib (Call.enqueue_callback i url token now) s k h =
    elim (enqueue_effect i url token now s) [
      | inl same ↦ subst (HasOutbox) (sym same) h
      | inr written ↦ subst (HasOutbox) (sym written) (
          unfold Deliveries.enqueue_row in
          more_deliveries s.callback_deliveries _ s.executions
            (λ j x. upsert-keeps _ _ _ j s.callback_deliveries (λ d. refl) x) h)
    ]
step-HasOutbox lib (Call.claim_callback i w seconds now) s k h =
    unfold Deliveries.claim_callback in update_deliveries-HasOutbox _ _ s (λ d. refl) h
step-HasOutbox lib (Call.mark_callback_delivered i now) s k h =
    unfold Deliveries.mark_callback_delivered in update_deliveries-HasOutbox _ _ s (λ d. refl) h
step-HasOutbox lib (Call.mark_callback_delivered_by_owner i w now) s k h =
    unfold Deliveries.mark_callback_delivered_by_owner in
    update_deliveries-HasOutbox _ _ s (λ d. refl) h
step-HasOutbox lib (Call.mark_callback_failed i error w now) s k h =
    unfold Deliveries.mark_callback_failed in update_deliveries-HasOutbox _ _ s (λ d. refl) h
step-HasOutbox lib (Call.replay_callback i now) s k h =
    unfold Deliveries.replay_callback in replay_row-HasOutbox (find_execution i s) i now s h

-- After any calls on a store with unique keys and a complete outbox, every execution that has ended
-- and has a callback URL has a delivery row.
pub run-HasOutbox :
    (lib : Platform) (cs : List Call) (s : JudgeStore)
    → IsKeyed s
    → HasOutbox s
    → HasOutbox (run lib cs s)
unfolding run
run-HasOutbox lib [] s k h = h
run-HasOutbox lib (c ∷ cs) s k h =
    run-HasOutbox lib cs (step lib c s) (step-IsKeyed lib c s k) (step-HasOutbox lib c s k h)
