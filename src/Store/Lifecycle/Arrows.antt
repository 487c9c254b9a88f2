-- ===== src/Store/Lifecycle/Arrows.antt =====
-- What one call does to the statuses of a table, as arrows of the lifecycle.
use brunost_judge.Prelude.{
  ℕ, String, ◌≡◌, refl, sym, ap, ◌∙◌, subst, Bool, true, false, Bool-cases, Option-cases, inl, inr,
  none, List, [], ◌∷◌, ◌++◌, All, arith, if◌then◌else◌, ==→eq,
}
use brunost_judge.Contracts.{Status, queued, running, canceled, is_terminal}
use brunost_judge.Sql.{apply_if, update_where}
use brunost_judge.Sql.Keys.{Occurs, Occurs-determined}
use brunost_judge.Store.{Execution, JudgeStore, has_id, is_queued, is_running, lease_until}
use brunost_judge.Store.Claim.{lease_expired, released, expire_leases, leased, lease_row}
use brunost_judge.Store.Keys.{IsKeyed, expire_leases-IsKeyed, execution_key}
use brunost_judge.Store.Steps.Effects.{Claimed}
use brunost_judge.Store.Lifecycle.{Lifecycle, claimed, lease_lost, dropped, ended}
use brunost_judge.Store.Lifecycle.History.{Claimed-row}

-- no arrow of the diagram, or one
pub data Arrow (a : Status) : Status → Type 0 where
  same : Arrow a a
  along : {b : Status} → Lifecycle a b → Arrow a b

-- a row as it is submitted
pub record IsNew (e : Execution) : Type 0 where
  pub waiting : e.status ≡ queued
  pub wanted : e.cancel_requested ≡ false
  pub unleased : e.lease_expires_at ≡ none

abbrev pub Arrows : List Execution → List Execution → Type 0
Arrows [] new = All IsNew new
Arrows (e ∷ es) [] = ⊥
Arrows (e ∷ es) (f ∷ fs) = Arrow e.status f.status × Arrows es fs

pub Arrows-refl : (es : List Execution) → Arrows es es
Arrows-refl [] = tt
Arrows-refl (e ∷ es) = (same, Arrows-refl es)

pub Arrows-append : (es : List Execution) (e : Execution) → IsNew e → Arrows es (es ++ e ∷ [])
Arrows-append [] e h = (h, tt)
Arrows-append (x ∷ es) e h = (same, Arrows-append es e h)

pub Arrows-update :
    (p : Execution → Bool) (f : Execution → Execution) (es : List Execution)
    → ((e : Execution) → p e ≡ true → Arrow e.status (f e).status)
    → Arrows es (update_where p f es)
unfolding update_where
Arrows-update p f [] moves = tt
Arrows-update p f (e ∷ es) moves = elim (Bool-cases (p e)) [
  | inl hit ↦ rw hit (moves e hit, Arrows-update p f es moves)
  | inr miss ↦ rw miss (same, Arrows-update p f es moves)
]

pub finish-Arrow :
    (a t : Status) (c : Bool)
    → is_running a ≡ true
    → is_terminal t ≡ true
    → Arrow a (if c then canceled else t)
finish-Arrow running t true h k = along (ended refl)
finish-Arrow running t false h k = along (ended k)
finish-Arrow _ t c h k = absurd (cc)

pub cancel-Arrow : (a : Status) → Arrow a (if is_queued a then canceled else a)
cancel-Arrow queued = along dropped
cancel-Arrow _ = same

free-Arrow :
    (a : Status) (c : Bool) → is_running a ≡ true → Arrow a (if c then canceled else queued)
free-Arrow running true h = along (ended refl)
free-Arrow running false h = along lease_lost
free-Arrow _ c h = absurd (cc)

-- A claim frees a row first, if its lease has expired, and leases it then, if it is the chosen one.
freed : Bool → Bool → Status → Status
freed expired c a = if expired then (if c then canceled else queued) else a

lease-Arrow :
    (a : Status) (expired c chosen : Bool)
    → (expired ≡ true → is_running a ≡ true)
    → (chosen ≡ true → is_queued (freed expired c a) ≡ true)
    → Arrow a (if chosen then running else freed expired c a)
unfolding freed
lease-Arrow running true true true h k = absurd (cc (k refl))
lease-Arrow running true false true h k = same
lease-Arrow running true true false h k = along (ended refl)
lease-Arrow running true false false h k = along lease_lost
lease-Arrow queued false c true h k = along claimed
lease-Arrow a false c false h k = same
lease-Arrow a false c true h k = absurd (cc (k refl))
lease-Arrow a true c chosen h k = absurd (cc (h refl))

module _ (now : ℕ) (q : Execution → Bool) (w : String) (until : ℕ) where
  abbrev free : Execution → Execution
  free = apply_if (lease_expired now) (released now)

  claim_row-Arrow :
      (e : Execution)
      → (q (free e) ≡ true → is_queued (free e).status ≡ true)
      → Arrow e.status (apply_if q (leased w until now) (free e)).status
  claim_row-Arrow e k = elim (Bool-cases (lease_expired now e)) [
    | inl hit ↦
        let was_running : is_running e.status ≡ true = ground (arith, hit) in
        let rest : q (released now e) ≡ true → is_queued (released now e).status ≡ true =
          subst (λ x. q x ≡ true → is_queued x.status ≡ true) (rw hit refl) k in
        elim (Bool-cases (q (released now e))) [
          | inl chosen ↦
              rw (hit, chosen)
                (lease-Arrow e.status true e.cancel_requested true (λ x. was_running)
                  (λ x. unfold freed in rest chosen))
          | inr passed_by ↦
              rw (hit, passed_by)
                (unfold freed in
                  lease-Arrow e.status true e.cancel_requested false (λ x. was_running)
                    (λ x. absurd (cc)))
        ]
    | inr miss ↦
        let rest : q e ≡ true → is_queued e.status ≡ true =
          subst (λ x. q x ≡ true → is_queued x.status ≡ true) (rw miss refl) k in
        elim (Bool-cases (q e)) [
          | inl chosen ↦
              rw (miss, chosen)
                (lease-Arrow e.status false e.cancel_requested true (λ x. absurd (cc))
                  (λ x. unfold freed in rest chosen))
          | inr passed_by ↦ rw (miss, passed_by) same
        ]
  ]

  Arrows-claim :
      (es : List Execution)
      → ((f : Execution)
          → Occurs f (update_where (lease_expired now) (released now) es)
          → q f ≡ true
          → is_queued f.status ≡ true)
      → Arrows es
          (update_where q (leased w until now) (update_where (lease_expired now) (released now) es))
  unfolding update_where
  Arrows-claim [] waiting = tt
  Arrows-claim (e ∷ es) waiting =
      (claim_row-Arrow e (waiting (free e) (inl refl)), Arrows-claim es (λ f o. waiting f (inr o)))

expire_leases-Arrows :
    (now : ℕ) (s : JudgeStore) → Arrows s.executions (expire_leases now s).executions
unfolding expire_leases
expire_leases-Arrows now s =
    Arrows-update (lease_expired now) (released now) s.executions
      (λ e h. free-Arrow e.status e.cancel_requested (ground (arith, h)))

pub Claimed-Arrows :
    (w : String) (queues classes capabilities : List String) (seconds now : ℕ) (s s' : JudgeStore)
    → IsKeyed s
    → Claimed w queues classes capabilities seconds now s s'
    → Arrows s.executions s'.executions
unfolding lease_row expire_leases
Claimed-Arrows w queues classes capabilities seconds now s s' k c =
    let chosen = Claimed-row w queues classes capabilities seconds now s s' c in
    elim (Option-cases c.row) [
      | inl nobody ↦
          let after : s' ≡ expire_leases now s =
            c.after ∙ ap (λ o. (lease_row w seconds now (expire_leases now s) o).1) nobody in
          subst (λ t. Arrows s.executions t.executions) (sym after) (expire_leases-Arrows now s)
      | inr (row, found) ↦
          let after =
            c.after ∙ ap (λ o. (lease_row w seconds now (expire_leases now s) o).1) found in
          let (at, waiting) = chosen row found in
          subst (λ t. Arrows s.executions t.executions) (sym after)
            (Arrows-claim now (has_id row.execution_id) w (lease_until now seconds) s.executions
              λ f o hit.
                let f_is_row : f ≡ row =
                  Occurs-determined execution_key f row (expire_leases now s).executions
                    (expire_leases-IsKeyed now s k).execution_ids o at (==→eq _ _ hit) in
                ap (λ x. is_queued x.status) f_is_row ∙ waiting)
    ]
