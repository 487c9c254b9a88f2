-- ===== src/Scheduler/Selection.antt =====
-- `choose` of the scheduler picks the best worker that can run the request.
use brunost_judge.Prelude.{
  ℕ, ◌≡◌, refl, sym, ap, ◌∙◌, subst, ◌⊎◌, inl, inr, Bool, true, Bool-cases, Option, none, some,
  List, [], ◌∷◌, arith, if◌then◌else◌,
}
use brunost_judge.Sql.Keys.{Occurs}
use brunost_judge.Sql.Order.{IsTotalOrder, text_leb-IsTotalOrder}
use brunost_judge.Scheduler.{
  WorkerAdvertisement, SchedulingRequest, CapabilityScheduler, can_run, keep_if, candidates,
  key_leb, least, assignments, choose_from, choose,
}

key_leb-IsTotalOrder : (r : SchedulingRequest) (count : ℕ) → IsTotalOrder (key_leb r count)
unfolding key_leb
key_leb-IsTotalOrder r count = record {
  total = λ a b h. ground (arith, text_leb-IsTotalOrder.total a.worker_id b.worker_id);
  trans =
      λ a b c h k. ground (arith, text_leb-IsTotalOrder.trans a.worker_id b.worker_id c.worker_id);
}

keep_if-Occurs :
    (p : WorkerAdvertisement → Bool) (ws : List WorkerAdvertisement) (w : WorkerAdvertisement)
    → Occurs w (keep_if p ws)
    → Occurs w ws × (p w ≡ true)
unfolding keep_if
keep_if-Occurs p [] w o = absurd o
keep_if-Occurs p (x ∷ ws) w o = elim (Bool-cases (p x)) [
  | inl hit ↦ elim (rw hit at o) [
    | inl same ↦ (inl same, ap p same ∙ hit)
    | inr rest ↦ let h = keep_if-Occurs p ws w rest in (inr h.0, h.1)
  ]
  | inr miss ↦ let h = keep_if-Occurs p ws w (rw miss at o) in (inr h.0, h.1)
]

Occurs-keep_if :
    (p : WorkerAdvertisement → Bool) (ws : List WorkerAdvertisement) (w : WorkerAdvertisement)
    → Occurs w ws
    → p w ≡ true
    → Occurs w (keep_if p ws)
unfolding keep_if
Occurs-keep_if p [] w o e = absurd o
Occurs-keep_if p (x ∷ ws) w (inl same) e = rw (sym (ap p same) ∙ e) (inl same)
Occurs-keep_if p (x ∷ ws) w (inr o) e = elim (Bool-cases (p x)) [
  | inl hit ↦ rw hit (inr (Occurs-keep_if p ws w o e))
  | inr miss ↦ rw miss (Occurs-keep_if p ws w o e)
]

module _ (leq : WorkerAdvertisement → WorkerAdvertisement → Bool) (o : IsTotalOrder leq) where
  leq_refl : (w : WorkerAdvertisement) → leq w w ≡ true
  leq_refl w = elim (Bool-cases (leq w w)) [
    | inl reflexive ↦ reflexive
    | inr loop ↦ o.total w w loop
  ]

  better : WorkerAdvertisement → WorkerAdvertisement → WorkerAdvertisement
  better best w = if leq best w then best else w

  better-cases :
      (best w : WorkerAdvertisement)
      → ((better best w ≡ best) ⊎ (better best w ≡ w))
        × (leq (better best w) best ≡ true)
        × (leq (better best w) w ≡ true)
  unfolding better
  better-cases best w = elim (Bool-cases (leq best w)) [
    | inl keep ↦ rw keep (inl refl, leq_refl best, keep)
    | inr swap ↦ rw swap (inr refl, o.total best w swap, leq_refl w)
  ]

  least-Occurs :
      (best : WorkerAdvertisement) (ws : List WorkerAdvertisement)
      → Occurs (least leq best ws) (best ∷ ws)
  unfolding least better
  least-Occurs best [] = inl refl
  least-Occurs best (w ∷ ws) = elim (least-Occurs (better best w) ws) [
    | inr rest ↦ inr (inr rest)
    | inl front ↦ elim (better-cases best w).0 [
      | inl kept ↦ inl (front ∙ kept)
      | inr swapped ↦ inr (inl (front ∙ swapped))
    ]
  ]

  least-leq :
      (best : WorkerAdvertisement) (ws : List WorkerAdvertisement) (v : WorkerAdvertisement)
      → Occurs v (best ∷ ws)
      → leq (least leq best ws) v ≡ true
  unfolding least better
  least-leq best [] v (inl e) = rw e (leq_refl best)
  least-leq best [] v (inr missing) = absurd missing
  least-leq best (w ∷ ws) v h =
      let l = least leq (better best w) ws in
      let front = least-leq (better best w) ws (better best w) (inl refl) in
      elim h [
        | inl e ↦ ap (leq l) e ∙ o.trans l (better best w) best front (better-cases best w).1
        | inr (inl e) ↦ ap (leq l) e ∙ o.trans l (better best w) w front (better-cases best w).2
        | inr (inr rest) ↦ least-leq (better best w) ws v (inr rest)
      ]

-- `w` can run the request and is registered.
abbrev pub IsCandidate : SchedulingRequest → CapabilityScheduler → WorkerAdvertisement → Type 0
IsCandidate r s w = Occurs w s.workers × (can_run r w ≡ true)

-- what `choose` answers: the best worker that can run the request, or that there is none
pub data Selection (r : SchedulingRequest) (s : CapabilityScheduler)
    : Option WorkerAdvertisement → Type 0 where
  no_worker : ((v : WorkerAdvertisement) → ¬ IsCandidate r s v) → Selection r s none
  selected :
      (w : WorkerAdvertisement)
      → IsCandidate r s w
      → ((v : WorkerAdvertisement)
          → IsCandidate r s v
          → key_leb r (assignments r.tenant s.tenant_assignments) w v ≡ true)
      → Selection r s (some w)

chosen :
    (r : SchedulingRequest) (s : CapabilityScheduler) (ws : List WorkerAdvertisement)
    → candidates r s ≡ ws
    → Selection r s (choose_from r ws s).0
unfolding choose_from candidates
chosen r s [] e =
    no_worker (λ v c. subst (Occurs v) e (Occurs-keep_if (can_run r) s.workers v c.0 c.1))
chosen r s (w ∷ ws) e =
    let leq = key_leb r (assignments r.tenant s.tenant_assignments) in
    let o = key_leb-IsTotalOrder r (assignments r.tenant s.tenant_assignments) in
    selected (least leq w ws)
      (keep_if-Occurs (can_run r) s.workers (least leq w ws)
        (subst (Occurs (least leq w ws)) (sym e) (least-Occurs leq o w ws)))
      (λ v c.
        least-leq leq o w ws v
          (subst (Occurs v) e (Occurs-keep_if (can_run r) s.workers v c.0 c.1)))

-- `choose` answers a registered worker that can run the request and whose key no other such worker
-- is below, and answers none only if no registered worker can run it.
pub choose-Selection :
    (r : SchedulingRequest) (s : CapabilityScheduler) → Selection r s (choose r s).0
unfolding choose
choose-Selection r s = chosen r s (candidates r s) refl
