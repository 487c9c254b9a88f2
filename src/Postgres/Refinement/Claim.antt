-- ===== src/Postgres/Refinement/Claim.antt =====
-- The PostgreSQL claim leases the row that the paged scan of the SQLite claim finds.
use brunost_judge.Prelude.{
  ℕ, suc, String, ◌≡◌, refl, sym, ap, ◌∙◌, inl, inr, Bool, true, some, List, [], ◌∷◌, map, length,
  arith,
}
use brunost_judge.Sql.{select_where, first_where, apply_if, update_where, order_by}
use brunost_judge.Sql.Commute.{first_row, first_row-select, select-select, select-order}
use brunost_judge.Sql.Keys.{Occurs, All-Occurs, select-Occurs, order-Occurs}
use brunost_judge.Store.{Result, ok, Execution, Delivery, JudgeStore}
use brunost_judge.Store.Claim
use brunost_judge.Store.Claim.{
  Claim, lease_expired, is_lost_cancel, released, notify_all, is_candidate, precedes, is_compatible,
  candidates, scan_pages, first_compatible, lease_row,
}
use brunost_judge.Store.Claim.Scan.{scan_pages-eq-first_compatible}
use brunost_judge.Store.Claim.Priority.{precedes-IsTotalOrder}
use brunost_judge.Store.Finish.{notify_execution}
use brunost_judge.Postgres.Claim as Pg
use brunost_judge.Postgres.Claim.{lost, returning, has_capabilities, chosen_row}
use brunost_judge.Postgres.Capable.{IsCapable, requires_texts, is_compatible-eq-has_capabilities}
use brunost_judge.Postgres.Capable.Steps.{expire_leases-IsCapable}

released_once :
    (now : ℕ) (e : Execution)
    → apply_if (lease_expired now) (released now) (apply_if (is_lost_cancel now) (lost now) e)
      ≡ apply_if (lease_expired now) (released now) e
released_once now e = ground arith

released_all :
    (now : ℕ) (es : List Execution)
    → update_where
        (lease_expired now)
        (released now)
        (update_where (is_lost_cancel now) (lost now) es)
      ≡ update_where (lease_expired now) (released now) es
unfolding update_where
released_all now [] = refl
released_all now (e ∷ es) = λ i. released_once now e i ∷ released_all now es i

notify_all-lost :
    (now : ℕ) (es : List Execution) (rows : List Delivery)
    → notify_all now (map (lost now) es) rows ≡ notify_all now es rows
unfolding notify_all notify_execution
notify_all-lost now [] rows = refl
notify_all-lost now (e ∷ es) rows = notify_all-lost now es (notify_execution (some e) now rows)

pub expire_leases-eq :
    (now : ℕ) (s : JudgeStore) → Pg.expire_leases now s ≡ Claim.expire_leases now s
unfolding Pg.expire_leases Claim.expire_leases returning
expire_leases-eq now s = λ i. record s {
  executions = released_all now s.executions i;
  callback_deliveries =
      notify_all-lost now (select_where (is_lost_cancel now) s.executions) s.callback_deliveries i;
}

-- a scan whose test never raises is a SELECT
first_compatible-ok :
    (test : Execution → Result Bool) (p : Execution → Bool) (es : List Execution)
    → ((e : Execution) → Occurs e es → test e ≡ ok (p e))
    → first_compatible test es ≡ ok (first_where p es)
unfolding first_compatible first_where
first_compatible-ok test p [] h = refl
first_compatible-ok test p (e ∷ es) h =
    ground (arith, h e (inl refl), first_compatible-ok test p es (λ x o. h x (inr o)))

module _ (queues classes capabilities : List String) (s : JudgeStore) (h : IsCapable s) where
  candidate_agrees :
      (e : Execution)
      → Occurs e (candidates queues classes s)
      → is_compatible capabilities s e ≡ ok (has_capabilities capabilities s e)
  unfolding candidates
  candidate_agrees e o = is_compatible-eq-has_capabilities capabilities s e h (
      All-Occurs (λ (x : Execution). requires_texts x.metadata ≡ true) s.executions e h.executions
        (select-Occurs (is_candidate queues classes s) s.executions e
          (order-Occurs precedes _ e o)).0)

  first_where-eq-chosen_row :
      first_where (has_capabilities capabilities s) (candidates queues classes s)
      ≡ chosen_row queues classes capabilities s
  unfolding candidates chosen_row
  first_where-eq-chosen_row =
      let p = is_candidate queues classes s in
      let q = has_capabilities capabilities s in
      sym (first_row-select q (order_by precedes (select_where p s.executions)))
      ∙ ap first_row (
          select-order precedes precedes-IsTotalOrder q (select_where p s.executions)
          ∙ ap (order_by precedes) (select-select p q s.executions))

  scan-eq-chosen_row :
      scan_pages
        (suc (length (candidates queues classes s)))
        (is_compatible capabilities s)
        (candidates queues classes s)
        0
      ≡ ok (chosen_row queues classes capabilities s)
  scan-eq-chosen_row =
      scan_pages-eq-first_compatible (is_compatible capabilities s) (candidates queues classes s)
      ∙ first_compatible-ok (is_compatible capabilities s) (has_capabilities capabilities s)
          (candidates queues classes s) candidate_agrees
      ∙ ap ok first_where-eq-chosen_row

-- Where every requirement is a list of texts, the two stores lease the same execution.
pub claim_next-eq :
    (w : String) (queues classes capabilities : List String) (seconds now : ℕ) (s : JudgeStore)
    → IsCapable s
    → Pg.claim_next w queues classes capabilities seconds now s
      ≡ Claim.claim_next w queues classes capabilities seconds now s
unfolding Pg.claim_next Claim.claim_next
claim_next-eq w queues classes capabilities seconds now s h =
    ap (λ t. ok (lease_row w seconds now t (chosen_row queues classes capabilities t)))
      (expire_leases-eq now s)
    ∙ rw
        (scan-eq-chosen_row queues classes capabilities (Claim.expire_leases now s)
          (expire_leases-IsCapable now s h))
        refl
