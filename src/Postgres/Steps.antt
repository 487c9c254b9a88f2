-- ===== src/Postgres/Steps.antt =====
-- The calls of the PostgreSQL store, on the calls of `Store.Steps`. The readings of the database's
-- and the server's clock within one statement are taken to be the same.
use brunost_judge.Prelude.{if◌then◌else◌, List, [], ◌∷◌}
use brunost_judge.Platform.{Platform}
use brunost_judge.Store.{JudgeStore}
use brunost_judge.Store.Steps.{Call, store_after}
use brunost_judge.Store.Steps.Call.{
  submit, claim_next, finish, renew_lease, cancel, enqueue_callback, claim_callback,
  mark_callback_delivered, mark_callback_delivered_by_owner, mark_callback_failed, replay_callback,
}
use brunost_judge.Postgres.Columns.{Columns}
use brunost_judge.Postgres.Submit
use brunost_judge.Postgres.Claim
use brunost_judge.Postgres.Finish
use brunost_judge.Postgres.Deliveries

-- a call whose parameters can be sent
unfoldable pub sent_step : Columns → Platform → Call → JudgeStore → JudgeStore
sent_step cols lib (submit i now r) s = store_after s (Submit.submit cols lib i now r s)
sent_step cols lib (claim_next w queues classes capabilities seconds now) s =
    store_after s (Claim.claim_next w queues classes capabilities seconds now s)
sent_step cols lib (finish i r w now later) s =
    store_after s (Finish.finish cols lib i r w now now later s)
sent_step cols lib (renew_lease i w seconds now) s = (Finish.renew_lease i w seconds now s).1
sent_step cols lib (cancel i now later) s = (Finish.cancel i now later s).1
sent_step cols lib (enqueue_callback i url token now) s =
    store_after s (Deliveries.enqueue_callback i url token now s)
sent_step cols lib (claim_callback i w seconds now) s =
    (Deliveries.claim_callback i w seconds now now now s).1
sent_step cols lib (mark_callback_delivered i now) s = Deliveries.mark_callback_delivered i now s
sent_step cols lib (mark_callback_delivered_by_owner i w now) s =
    (Deliveries.mark_callback_delivered_by_owner i w now s).1
sent_step cols lib (mark_callback_failed i error w now) s =
    (Deliveries.mark_callback_failed i error w now s).1
sent_step cols lib (replay_callback i now) s = (Deliveries.replay_callback i now s).1

-- A call whose parameters the driver or the database refuses raises, and changes nothing.
unfoldable pub step : Columns → Platform → Call → JudgeStore → JudgeStore
unfolding sent_step
step cols lib c s = let s' = sent_step cols lib c s in if cols.sends c then s' else s

unfoldable pub run : Columns → Platform → List Call → JudgeStore → JudgeStore
unfolding step
run cols lib [] s = s
run cols lib (c ∷ cs) s = run cols lib cs (step cols lib c s)
