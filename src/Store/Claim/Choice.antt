-- ===== src/Store/Claim/Choice.antt =====
-- What `claim_next` leases: the first compatible candidate in the order of priority, age and
-- identifier, if there is one.
use brunost_judge.Prelude.{
  ℕ, suc, String, ◌≡◌, refl, sym, ap, ◌∙◌, subst, ◌⊎◌, true, false, Option, none, some, List,
  length, arith, eq_refl,
}
use brunost_judge.Sql.{select_where}
use brunost_judge.Sql.Update.{first-update}
use brunost_judge.Sql.Order.{IsSorted, order_by-IsSorted}
use brunost_judge.Sql.Keys.{
  IsUnique, Occurs, select-Occurs, order-Occurs, Occurs-select, Occurs-order, find_by_key,
}
use brunost_judge.Store.{
  Result, ok, err, ◌>>=◌, Execution, JudgeStore, has_id, find_execution, lease_until,
}
use brunost_judge.Store.Claim.{
  Claim, claim_next, expire_leases, candidates, is_candidate, is_compatible, lease_row, leased,
  precedes, scan_pages,
}
use brunost_judge.Store.Claim.Scan.{
  scan_pages-eq-first_compatible, first_compatible-Occurs, first_compatible-first,
  first_compatible-none,
}
use brunost_judge.Store.Claim.Priority.{precedes-IsTotalOrder}
use brunost_judge.Store.Steps.{store_after}
use brunost_judge.Store.Keys.{IsKeyed, execution_key, expire_leases-IsKeyed}

-- a row that the worker may be given, after the expired leases are released
abbrev pub IsEligible : List String → List String → List String → JudgeStore → Execution → Type 0
IsEligible queues classes capabilities s e =
    Occurs e s.executions
    × (is_candidate queues classes s e ≡ true)
    × (is_compatible capabilities s e ≡ ok true)

module _ (w : String) (queues classes capabilities : List String) (seconds now : ℕ)
    (s : JudgeStore) where
  candidate-Occurs :
      (e : Execution)
      → Occurs e s.executions
      → is_candidate queues classes s e ≡ true
      → Occurs e (candidates queues classes s)
  unfolding candidates
  candidate-Occurs e o c =
      Occurs-order precedes _ e (Occurs-select (is_candidate queues classes s) s.executions e o c)

  Occurs-candidate :
      (e : Execution)
      → Occurs e (candidates queues classes s)
      → Occurs e s.executions × (is_candidate queues classes s e ≡ true)
  unfolding candidates
  Occurs-candidate e o =
      select-Occurs (is_candidate queues classes s) s.executions e (order-Occurs precedes _ e o)

  candidates-IsSorted : IsSorted precedes (candidates queues classes s)
  unfolding candidates
  candidates-IsSorted =
      order_by-IsSorted precedes precedes-IsTotalOrder
        (select_where (is_candidate queues classes s) s.executions)

  -- The row that the scan finds is eligible, and precedes every other eligible row.
  pub scan_finds_best :
      (row : Execution)
      → scan_pages
          (suc (length (candidates queues classes s)))
          (is_compatible capabilities s)
          (candidates queues classes s)
          0
        ≡ ok (some row)
      → IsEligible queues classes capabilities s row
        × ((e : Execution)
            → IsEligible queues classes capabilities s e
            → (e ≡ row) ⊎ (precedes row e ≡ true))
  scan_finds_best row h =
      let plain =
        sym (
          scan_pages-eq-first_compatible (is_compatible capabilities s)
            (candidates queues classes s))
        ∙ h in
      let (at, fits) = first_compatible-Occurs (is_compatible capabilities s) _ row plain in
      let (there, cand) = Occurs-candidate row at in
      (
        (there, cand, fits),
        λ e el.
            first_compatible-first (is_compatible capabilities s) precedes
              (candidates queues classes s) row e candidates-IsSorted plain
              (candidate-Occurs e el.0 el.1) el.2,
      )

  -- If the scan finds no row, then no row is eligible.
  scan_finds_none :
      scan_pages
          (suc (length (candidates queues classes s)))
          (is_compatible capabilities s)
          (candidates queues classes s)
          0
        ≡ ok none
      → (e : Execution) → ¬ IsEligible queues classes capabilities s e
  scan_finds_none h e el =
      let plain =
        sym (
          scan_pages-eq-first_compatible (is_compatible capabilities s)
            (candidates queues classes s))
        ∙ h in
      let refused : is_compatible capabilities s e ≡ ok false =
        first_compatible-none (is_compatible capabilities s) (candidates queues classes s) e plain
          (candidate-Occurs e el.0 el.1) in
      absurd (ground (arith, refused, el.2))

  lease_row-found :
      (row : Execution)
      → IsUnique execution_key s.executions
      → Occurs row s.executions
      → find_execution row.execution_id (lease_row w seconds now s (some row)).1
        ≡ some (leased w (lease_until now seconds) now row)
  unfolding lease_row
  lease_row-found row u o =
      let found = find_by_key execution_key row.execution_id row s.executions u o refl in
      first-update (has_id row.execution_id) (has_id row.execution_id)
        (leased w (lease_until now seconds) now) (λ x. refl) s.executions
      ∙ rw (found, eq_refl row.execution_id)

-- What a claim does once the expired leases are released: it leases an eligible row that precedes
-- every other one, or there is none.
pub data Choice (w : String) (queues classes capabilities : List String) (seconds now : ℕ)
    (s s' : JudgeStore) : Type 0 where
  nothing :
      ((e : Execution) → ¬ IsEligible queues classes capabilities s e)
      → s' ≡ s
      → Choice w queues classes capabilities seconds now s s'
  best :
      (row : Execution)
      → IsEligible queues classes capabilities s row
      → ((e : Execution)
          → IsEligible queues classes capabilities s e
          → (e ≡ row) ⊎ (precedes row e ≡ true))
      → find_execution row.execution_id s' ≡ some (leased w (lease_until now seconds) now row)
      → Choice w queues classes capabilities seconds now s s'

module _ (w : String) (queues classes capabilities : List String) (seconds now : ℕ) (s : JudgeStore)
    (k : IsKeyed s) where
  chosen :
      (row : Option Execution)
      → scan_pages
          (suc (length (candidates queues classes s)))
          (is_compatible capabilities s)
          (candidates queues classes s)
          0
        ≡ ok row
      → Choice w queues classes capabilities seconds now s (lease_row w seconds now s row).1
  chosen none h =
      nothing (scan_finds_none w queues classes capabilities seconds now s h)
        (unfold lease_row in refl)
  chosen (some row) h =
      let (fits, first) = scan_finds_best w queues classes capabilities seconds now s row h in
      best row fits first
        (lease_row-found w queues classes capabilities seconds now s row k.execution_ids fits.0)

-- the call, for a scan with a known result
written :
    (w : String) (queues classes capabilities : List String) (seconds now : ℕ) (s : JudgeStore)
    (c : Option Claim) (s' : JudgeStore) (r : Result (Option Execution))
    → (do row ← r; ok (lease_row w seconds now s row)) ≡ ok (c, s')
    → (row : Option Execution) × (r ≡ ok row) × ((lease_row w seconds now s row).1 ≡ s')
written w queues classes capabilities seconds now s c s' (err e) h = absurd (cc)
written w queues classes capabilities seconds now s c s' (ok row) h =
    (row, refl, ap (store_after s) h)

-- A claim that does not raise leases the first eligible row in the order of priority, age and
-- identifier, and leases none only if no row is eligible.
pub claim_leases_best :
    (w : String) (queues classes capabilities : List String) (seconds now : ℕ) (s : JudgeStore)
    (c : Option Claim) (s' : JudgeStore)
    → IsKeyed s
    → claim_next w queues classes capabilities seconds now s ≡ ok (c, s')
    → Choice w queues classes capabilities seconds now (expire_leases now s) s'
unfolding claim_next
claim_leases_best w queues classes capabilities seconds now s c s' k h =
    let (row, found, same) =
      written w queues classes capabilities seconds now (expire_leases now s) c s' _ h in
    subst (Choice w queues classes capabilities seconds now (expire_leases now s)) same (
      chosen w queues classes capabilities seconds now (expire_leases now s)
        (expire_leases-IsKeyed now s k) row found)
