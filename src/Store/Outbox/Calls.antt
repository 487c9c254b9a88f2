-- ===== src/Store/Outbox/Calls.antt =====
-- Every call keeps the outbox complete.
use brunost_judge.Prelude.{
  ℕ, String, ◌≡◌, refl, sym, ap, ◌∙◌, subst, inl, inr, true, Bool-cases, Option, none, some, List,
  All, All-append, arith, eq_iff, ==→eq, nat_eq,
}
use brunost_judge.Platform.{Platform}
use brunost_judge.Contracts.{ExecutionRequest, ExecutionResult}
use brunost_judge.Sql.{select_where, rowcount}
use brunost_judge.Sql.Update.{first-update, first-satisfies}
use brunost_judge.Sql.Keys.{
  Occurs, Occurs-determined, All-Occurs, All-of_Occurs, All-of_update, first-Occurs, Occurs-select,
  find_by_key, rowcount_key, rowcount-pos,
}
use brunost_judge.Store.{
  Execution, Delivery, JudgeStore, has_id, find_execution, truthy_text, is_queued, lease_until,
}
use brunost_judge.Store.Submit.{submitted_row}
use brunost_judge.Store.Claim.{
  lease_expired, released, expire_leases, leased, lease_row, is_lost_cancel,
}
use brunost_judge.Store.Finish.{
  holds_lease, finished, finish_update, cancellation, cancel_update, notify_execution,
  update_executions,
}
use brunost_judge.Store.Keys.{IsKeyed, execution_key}
use brunost_judge.Store.Steps.Effects.{Submitted}
use brunost_judge.Store.Outbox.{
  HasDelivery, IsAnnounced, HasOutbox, notify_execution-keeps, notify_execution-adds,
  notify_all-keeps, notify_all-adds,
}

-- more deliveries announce as much
pub more_deliveries :
    (cs ds : List Delivery) (es : List Execution)
    → ((i : String) → HasDelivery i cs → HasDelivery i ds)
    → All (IsAnnounced cs) es
    → All (IsAnnounced ds) es
more_deliveries cs ds es more h =
    All-of_Occurs (IsAnnounced ds) es
      (λ e o t url. more e.execution_id (All-Occurs (IsAnnounced cs) es e h o t url))

pub Submitted-HasOutbox :
    (lib : Platform) (i : String) (now : ℕ) (r : ExecutionRequest) (s s' : JudgeStore)
    → HasOutbox s
    → Submitted lib i now r s s'
    → HasOutbox s'
unfolding submitted_row
Submitted-HasOutbox lib i now r s s' h sub =
    subst HasOutbox (sym sub.after)
      (All-append (IsAnnounced s.callback_deliveries) s.executions _ h ((λ t url. absurd (cc)), tt))

pub expire_leases-HasOutbox :
    (now : ℕ) (s : JudgeStore) → HasOutbox s → HasOutbox (expire_leases now s)
unfolding expire_leases
expire_leases-HasOutbox now s h =
    let lost = select_where (is_lost_cancel now) s.executions in
    All-of_update (lease_expired now) (released now) s.executions
      (λ e o t url.
        notify_all-keeps now lost e.execution_id s.callback_deliveries
          (All-Occurs (IsAnnounced s.callback_deliveries) s.executions e h o t url))
      λ e o hit t url.
        notify_all-adds now lost e s.callback_deliveries
          (Occurs-select (is_lost_cancel now) s.executions e o (ground arith)) url

pub lease_row-HasOutbox :
    (w : String) (seconds now : ℕ) (s : JudgeStore) (row : Option Execution)
    → HasOutbox s
    → HasOutbox (lease_row w seconds now s row).1
unfolding lease_row
lease_row-HasOutbox w seconds now s none h = h
lease_row-HasOutbox w seconds now s (some row) h =
    All-of_update (has_id row.execution_id) (leased w (lease_until now seconds) now) s.executions
      (λ e o. All-Occurs (IsAnnounced s.callback_deliveries) s.executions e h o)
      (λ e o hit t url. absurd (cc))

module _ (i : String) (r : ExecutionResult) (w : String) (now later : ℕ) (s : JudgeStore)
    (k : IsKeyed s) where
  finish_deliveries-keeps :
      (j : String)
      → HasDelivery j s.callback_deliveries
      → HasDelivery j (finish_update i r w now later s).callback_deliveries
  unfolding finish_update
  finish_deliveries-keeps j h =
      elim (Bool-cases (nat_eq (rowcount (holds_lease i w now) s.executions) 1)) [
        | inl one ↦ rw one (
            notify_execution-keeps
              (find_execution i (update_executions (holds_lease i w now) (finished r now) s)) later
              j s.callback_deliveries h)
        | inr other ↦ rw other h
      ]

  -- the row that `finish` wrote is the one that it announces
  written_row :
      (e : Execution)
      → Occurs e s.executions
      → holds_lease i w now e ≡ true
      → find_execution i (update_executions (holds_lease i w now) (finished r now) s)
        ≡ some (finished r now e)
  written_row e o hit =
      let id : e.execution_id ≡ i = ground (arith, eq_iff e.execution_id i) in
      first-update (has_id i) (holds_lease i w now) (finished r now) (λ x. refl) s.executions
      ∙ rw (find_by_key execution_key i e s.executions k.execution_ids o id) (rw hit refl)

  one_row :
      (e : Execution)
      → Occurs e s.executions
      → holds_lease i w now e ≡ true
      → nat_eq (rowcount (holds_lease i w now) s.executions) 1 ≡ true
  one_row e o hit = ground (
    arith,
    rowcount-pos (holds_lease i w now) e s.executions o hit,
    rowcount_key execution_key i (holds_lease i w now)
        (λ x h. ==→eq x.execution_id i (ground arith)) s.executions k.execution_ids,
  )

  finish_deliveries-adds :
      (e : Execution)
      → Occurs e s.executions
      → holds_lease i w now e ≡ true
      → truthy_text e.callback_url ≡ true
      → HasDelivery e.execution_id (finish_update i r w now later s).callback_deliveries
  unfolding finish_update
  finish_deliveries-adds e o hit url =
      rw (one_row e o hit, written_row e o hit)
        (notify_execution-adds (finished r now e) later s.callback_deliveries url)

  pub finish_update-HasOutbox : HasOutbox s → HasOutbox (finish_update i r w now later s)
  finish_update-HasOutbox h =
      unfold finish_update in
      All-of_update (holds_lease i w now) (finished r now) s.executions
        (λ e o t url.
          finish_deliveries-keeps e.execution_id
            (All-Occurs (IsAnnounced s.callback_deliveries) s.executions e h o t url))
        (λ e o hit t url. finish_deliveries-adds e o hit url)

module _ (i : String) (now later : ℕ) (s : JudgeStore) (e : Execution) (k : IsKeyed s)
    (found : find_execution i s ≡ some e) where
  cancel_deliveries-keeps :
      (j : String)
      → HasDelivery j s.callback_deliveries
      → HasDelivery j (cancel_update i now later s e).callback_deliveries
  unfolding cancel_update
  cancel_deliveries-keeps j h = elim (Bool-cases (is_queued e.status)) [
    | inl waiting ↦ rw waiting (notify_execution-keeps (some e) later j s.callback_deliveries h)
    | inr other ↦ rw other h
  ]

  -- a row that the cancellation ends was queued, and is the row that is announced
  cancel_deliveries-adds :
      (x : Execution)
      → Occurs x s.executions
      → has_id i x ≡ true
      → is_queued x.status ≡ true
      → truthy_text x.callback_url ≡ true
      → HasDelivery x.execution_id (cancel_update i now later s e).callback_deliveries
  unfolding cancel_update
  cancel_deliveries-adds x o hit waiting url =
      let same : e ≡ x =
        Occurs-determined execution_key e x s.executions k.execution_ids
          (first-Occurs (has_id i) s.executions e found) o
          (==→eq _ _ (first-satisfies (has_id i) s.executions e found) ∙ sym (==→eq _ _ hit)) in
      rw (ap (λ y. is_queued y.status) same ∙ waiting) (
        subst
          (λ y. HasDelivery x.execution_id (notify_execution (some y) later s.callback_deliveries))
          (sym same) (notify_execution-adds x later s.callback_deliveries url))

  pub cancel_update-HasOutbox : HasOutbox s → HasOutbox (cancel_update i now later s e)
  cancel_update-HasOutbox h =
      unfold cancel_update in
      All-of_update (has_id i) (cancellation now) s.executions
        (λ x o t url.
          cancel_deliveries-keeps x.execution_id
            (All-Occurs (IsAnnounced s.callback_deliveries) s.executions x h o t url))
        (λ x o hit t url. elim (Bool-cases (is_queued x.status)) [
          | inl waiting ↦ cancel_deliveries-adds x o hit waiting url
          | inr other ↦ cancel_deliveries-keeps x.execution_id (
              All-Occurs (IsAnnounced s.callback_deliveries) s.executions x h o (rw other at t) url)
        ])
