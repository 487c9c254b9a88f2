-- ===== src/Store/Lifecycle/Calls.antt =====
-- Every call of the store moves each execution along the lifecycle.
use brunost_judge.Prelude.{
  ℕ, String, ◌≡◌, refl, ◌∙◌, ap, Bool, true, false, Option, none, some, List, arith, ==→eq,
  if◌then◌else◌,
}
use brunost_judge.Contracts.{Status, queued, running, canceled, ExecutionResult, is_terminal}
use brunost_judge.Sql.Keys.{Occurs, Occurs-determined, order-Occurs, select-Occurs}
use brunost_judge.Store.{ok, Execution, JudgeStore, has_id, is_queued, is_running, lease_until}
use brunost_judge.Store.Claim.{
  lease_expired, released, expire_leases, leased, lease_row, first_compatible, is_compatible,
  candidates, is_candidate,
}
use brunost_judge.Store.Claim.Scan.{first_compatible-Occurs}
use brunost_judge.Store.Finish.{finished, renewed, cancellation}
use brunost_judge.Store.Keys.{IsKeyed, execution_key}
use brunost_judge.Store.Lifecycle.{
  LifecyclePath, stay, next, claimed, lease_lost, dropped, ended, Evolves, Extends, Extends-refl,
  Extends-update,
}

end_path :
    (a t : Status) (c : Bool)
    → is_running a ≡ true
    → is_terminal t ≡ true
    → LifecyclePath a (if c then canceled else t)
end_path running t true h k = next stay (ended refl)
end_path running t false h k = next stay (ended k)
end_path _ t c h k = absurd (cc)

release_path :
    (a : Status) (c : Bool) → is_running a ≡ true → LifecyclePath a (if c then canceled else queued)
release_path running true h = next stay (ended refl)
release_path running false h = next stay lease_lost
release_path _ c h = absurd (cc)

lease_path : (a : Status) → is_queued a ≡ true → LifecyclePath a running
lease_path queued h = next stay claimed
lease_path _ h = absurd (cc)

cancel_path : (a : Status) → LifecyclePath a (if is_queued a then canceled else a)
cancel_path queued = next stay dropped
cancel_path _ = stay

running_not_terminal : (a : Status) → is_running a ≡ true → is_terminal a ≡ false
running_not_terminal running h = refl
running_not_terminal _ h = absurd (cc)

module _ (e : Execution) (now : ℕ) where
  pub finished-Evolves :
      (r : ExecutionResult)
      → is_running e.status ≡ true
      → is_terminal r.status ≡ true
      → Evolves e (finished r now e)
  finished-Evolves r h k = record {
    request = ground arith;
    path = end_path e.status r.status e.cancel_requested h k;
    frozen = λ t. absurd (cc (t, running_not_terminal e.status h));
    cancel_kept = λ c. c;
    cancel_wins = λ c o t. ground arith;
  }

  released-Evolves : is_running e.status ≡ true → Evolves e (released now e)
  released-Evolves h = record {
    request = ground arith;
    path = release_path e.status e.cancel_requested h;
    frozen = λ t. absurd (cc (t, running_not_terminal e.status h));
    cancel_kept = λ c. c;
    cancel_wins = λ c o t. ground arith;
  }

  leased-Evolves :
      (w : String) (until : ℕ) → is_queued e.status ≡ true → Evolves e (leased w until now e)
  leased-Evolves w until h = record {
    request = ground arith;
    path = lease_path e.status h;
    frozen = λ t. ground arith;
    cancel_kept = λ c. c;
    cancel_wins = λ c o t. ground arith;
  }

  pub renewed-Evolves : (until : ℕ) → Evolves e (renewed until now e)
  renewed-Evolves until = record {
    request = ground arith;
    path = stay;
    frozen = λ t. ground arith;
    cancel_kept = λ c. c;
    cancel_wins = λ c o t. ground arith;
  }

  pub cancellation-Evolves : Evolves e (cancellation now e)
  cancellation-Evolves = record {
    request = ground arith;
    path = cancel_path e.status;
    frozen = λ t. ground arith;
    cancel_kept = λ c. refl;
    cancel_wins = λ c o t. ground arith;
  }

-- The row that the scan chose is queued and not canceled.
pub chosen_candidate :
    (queues classes capabilities : List String) (s : JudgeStore) (row : Execution)
    → first_compatible (is_compatible capabilities s) (candidates queues classes s) ≡ ok (some row)
    → Occurs row s.executions × (is_candidate queues classes s row ≡ true)
unfolding candidates
chosen_candidate queues classes capabilities s row h =
    select-Occurs (is_candidate queues classes s) s.executions row
      (order-Occurs _ _ row (first_compatible-Occurs (is_compatible capabilities s) _ row h).0)

pub expire_leases-Extends :
    (now : ℕ) (s : JudgeStore) → Extends s.executions (expire_leases now s).executions
unfolding expire_leases
expire_leases-Extends now s =
    Extends-update (lease_expired now) (released now) s.executions
      (λ e o h. released-Evolves e now (ground arith))

pub lease_row-Extends :
    (w : String) (seconds now : ℕ) (s : JudgeStore) (row : Option Execution)
    → IsKeyed s
    → ((r : Execution) → row ≡ some r → Occurs r s.executions × (is_queued r.status ≡ true))
    → Extends s.executions (lease_row w seconds now s row).1.executions
unfolding lease_row
lease_row-Extends w seconds now s none h chosen = Extends-refl s.executions
lease_row-Extends w seconds now s (some row) h chosen =
    Extends-update (has_id row.execution_id) (leased w (lease_until now seconds) now) s.executions
      λ e o same.
        let (at, waiting) = chosen row refl in
        let e_is_row : e ≡ row =
          Occurs-determined execution_key e row s.executions h.execution_ids o at
            (==→eq _ _ same) in
        leased-Evolves e now w (lease_until now seconds)
          (ap (λ x. is_queued x.status) e_is_row ∙ waiting)
