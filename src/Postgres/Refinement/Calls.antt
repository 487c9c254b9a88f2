-- ===== src/Postgres/Refinement/Calls.antt =====
-- Over any calls, the two stores keep the same tables.
use brunost_judge.Prelude.{
  sym, subst, true, not, ℕ, String, ◌≡◌, refl, ap, ◌∙◌, inl, inr, ==→eq, Option-cases, Option, none,
  some, List, [], ◌∷◌, All, arith,
}
use brunost_judge.Platform.{Platform}
use brunost_judge.Contracts.{ExecutionResult, is_terminal}
use brunost_judge.Text.{is_blank}
use brunost_judge.Sql.Update.{first-satisfies}
use brunost_judge.Store.{
  ok, TaskRow, ◌>>◌, require, missing_worker_id, not_terminal, JudgeStore, Execution, has_id,
  find_execution,
}
use brunost_judge.Store.Finish
use brunost_judge.Store.Deliveries
use brunost_judge.Store.Steps as Sqlite
use brunost_judge.Store.Steps.{Call, store_after}
use brunost_judge.Store.Idempotency.{step-tasks}
use brunost_judge.Postgres.Columns.{Columns}
use brunost_judge.Postgres.Finish.{column_outcome}
use brunost_judge.Postgres.Finish as PgFinish
use brunost_judge.Postgres.Deliveries as PgDeliveries
use brunost_judge.Postgres.Steps as Pg
use brunost_judge.Postgres.Capable.{IsCapable}
use brunost_judge.Postgres.Capable.Steps.{IsCapableCall, step-IsCapable}
use brunost_judge.Postgres.Refinement.Submit.{KeepsRow, submit-eq}
use brunost_judge.Postgres.Refinement.Claim.{claim_next-eq}

-- the two stores give back the same result for what is stored of this one
pub record KeepsOutcome (cols : Columns) (lib : Platform) (r : ExecutionResult) : Type 0 where
  pub stored : ExecutionResult
  pub sqlite : Finish.stored_result lib r ≡ ok stored
  pub postgres : cols.outcome r ≡ some stored

-- what a call writes comes back from both databases alike, on tables with these tasks
abbrev pub IsKept : Columns → Platform → List TaskRow → Call → Type 0
IsKept cols lib tasks (Call.submit i now r) = All (KeepsRow cols lib i now r) tasks
IsKept cols lib tasks (Call.finish i r w now later) = KeepsOutcome cols lib r
IsKept cols lib tasks _ = Unit

-- a call that both databases can take: it can be sent, it requires texts, and its values are kept
abbrev pub IsPlain : Columns → Platform → List TaskRow → Call → Type 0
IsPlain cols lib tasks c = (cols.sends c ≡ true) × IsCapableCall c × IsKept cols lib tasks c

module _ (i : String) (r : ExecutionResult) (w : String) (now later : ℕ) (s : JudgeStore) where
  publish-eq : PgFinish.publish i r w now now later s ≡ Finish.finish_update i r w now later s
  unfolding PgFinish.publish Finish.finish_update
  publish-eq = refl

  published-eq : PgFinish.published i r w now now later s ≡ Finish.commit_finish i r w now later s
  unfolding PgFinish.published Finish.commit_finish
  published-eq = ground (arith, publish-eq)

module _ (cols : Columns) (lib : Platform) (i : String) (r : ExecutionResult) (w : String)
    (now later : ℕ) (s : JudgeStore) (keeps : KeepsOutcome cols lib r) where
  stored_alike :
      (Finish.stored_result lib r ≡ ok keeps.stored) × (column_outcome cols r ≡ ok keeps.stored)
  unfolding Finish.stored_result column_outcome
  stored_alike = (keeps.sqlite, rw (column_outcome, keeps.postgres) refl)

  finish_existing-eq :
      (o : Option Execution)
      → PgFinish.finish_existing cols lib i r w now now later s o
        ≡ Finish.finish_found lib i r w now later s o
  unfolding PgFinish.finish_existing Finish.finish_found
  finish_existing-eq none = refl
  finish_existing-eq (some e) =
      rw (stored_alike.0, stored_alike.1)
        (ap (λ x. Finish.validate_finish_result lib i e.task_ref r >> ok x)
          (published-eq i keeps.stored w now later s))

  pub finish-eq :
      PgFinish.finish cols lib i r w now now later s ≡ Finish.finish lib i r w now later s
  unfolding PgFinish.finish Finish.finish
  finish-eq =
      ap
        (λ x.
          require missing_worker_id (not (is_blank w))
          >> (require not_terminal (is_terminal r.status) >> x))
        (finish_existing-eq (find_execution i s))

pub cancel-eq :
    (i : String) (now later : ℕ) (s : JudgeStore)
    → PgFinish.cancel i now later s ≡ Finish.cancel i now later s
unfolding PgFinish.cancel PgFinish.cancel_existing Finish.cancel Finish.cancel_update
    Finish.notify_execution
cancel-eq i now later s = elim (Option-cases (find_execution i s)) [
  | inl missing ↦ rw (missing, PgFinish.cancel, Finish.cancel) refl
  | inr (e, found) ↦
      let same : e.execution_id ≡ i = ==→eq _ _ (first-satisfies (has_id i) s.executions e found) in
      ground (arith, same)
]

pub replay_callback-eq :
    (i : String) (now : ℕ) (s : JudgeStore)
    → PgDeliveries.replay_callback i now s ≡ Deliveries.replay_callback i now s
unfolding PgDeliveries.replay_callback PgDeliveries.replay_target Deliveries.replay_callback
    Deliveries.replay_row Deliveries.replay_url
replay_callback-eq i now s = ground arith

sent_step-eq :
    (cols : Columns) (lib : Platform) (c : Call) (s : JudgeStore)
    → IsCapable s
    → IsKept cols lib s.tasks c
    → Pg.sent_step cols lib c s ≡ Sqlite.step lib c s
unfolding Pg.sent_step Sqlite.step
sent_step-eq cols lib (Call.submit i now r) s h kept =
    ap (store_after s) (submit-eq cols lib i now r s kept)
sent_step-eq cols lib (Call.claim_next w queues classes capabilities seconds now) s h kept =
    ap (store_after s) (claim_next-eq w queues classes capabilities seconds now s h)
sent_step-eq cols lib (Call.finish i r w now later) s h kept =
    ap (store_after s) (finish-eq cols lib i r w now later s kept)
sent_step-eq cols lib (Call.renew_lease i w seconds now) s h kept =
    unfold PgFinish.renew_lease Finish.renew_lease in refl
sent_step-eq cols lib (Call.cancel i now later) s h kept = ap (λ x. x.1) (cancel-eq i now later s)
sent_step-eq cols lib (Call.enqueue_callback i url token now) s h kept =
    unfold PgDeliveries.enqueue_callback Deliveries.enqueue_callback Deliveries.enqueue_row in refl
sent_step-eq cols lib (Call.claim_callback i w seconds now) s h kept =
    unfold PgDeliveries.claim_callback Deliveries.claim_callback in refl
sent_step-eq cols lib (Call.mark_callback_delivered i now) s h kept =
    unfold PgDeliveries.mark_callback_delivered Deliveries.mark_callback_delivered in refl
sent_step-eq cols lib (Call.mark_callback_delivered_by_owner i w now) s h kept =
    unfold PgDeliveries.mark_callback_delivered_by_owner
      Deliveries.mark_callback_delivered_by_owner in
    refl
sent_step-eq cols lib (Call.mark_callback_failed i error w now) s h kept =
    unfold PgDeliveries.mark_callback_failed PgDeliveries.attempts_so_far
      Deliveries.mark_callback_failed Deliveries.callback_attempts Deliveries.retry_delay in
    refl
sent_step-eq cols lib (Call.replay_callback i now) s h kept =
    ap (λ x. x.1) (replay_callback-eq i now s)

pub step-eq :
    (cols : Columns) (lib : Platform) (c : Call) (s : JudgeStore)
    → IsCapable s
    → IsPlain cols lib s.tasks c
    → Pg.step cols lib c s ≡ Sqlite.step lib c s
unfolding Pg.step
step-eq cols lib c s h plain = rw plain.0 (sent_step-eq cols lib c s h plain.2)

-- On tables whose requirements are lists of texts, any calls lead the PostgreSQL store and the SQLite
-- store to the same tables, if their submissions require lists of texts, their parameters can be sent,
-- the row of each submission, to whichever task, comes back from PostgreSQL as it is, the two databases
-- give back the same for what is stored of each result, texts are ordered by their code points, and
-- all readings of the clock within one statement agree.
pub run-eq :
    (cols : Columns) (lib : Platform) (cs : List Call) (s : JudgeStore)
    → IsCapable s
    → All (IsPlain cols lib s.tasks) cs
    → Pg.run cols lib cs s ≡ Sqlite.run lib cs s
unfolding Pg.run Sqlite.run
run-eq cols lib [] s h plain = refl
run-eq cols lib (c ∷ cs) s h plain =
    ap (Pg.run cols lib cs) (step-eq cols lib c s h plain.0)
    ∙ run-eq cols lib cs (Sqlite.step lib c s) (step-IsCapable lib c s plain.0.1 h)
        (subst (λ tasks. All (IsPlain cols lib tasks) cs) (sym (step-tasks lib c s)) plain.1)
