-- ===== src/Store/Deliveries/Exclusive.antt =====
-- The lease of a delivery: while it lives, no other worker gets it, and only its owner can
-- acknowledge the delivery.
use brunost_judge.Prelude.{
  ℕ, ◌<◌, String, ◌≡◌, ◌≢◌, refl, ◌∙◌, inl, inr, Bool, true, false, Bool-cases, List, [], ◌∷◌,
  arith, nat_eq, eq_iff, subst, ==→eq,
}
use brunost_judge.Sql.{update_where, rowcount, exists_where}
use brunost_judge.Sql.Update.{update-none, exists-update}
use brunost_judge.Sql.Keys.{IsUnique, has, rowcount_absent}
use brunost_judge.Store.{Delivery, JudgeStore, lease_until}
use brunost_judge.Store.Deliveries.{
  claim_callback, can_claim, claimed_by, mark_callback_delivered_by_owner, holds_delivery,
  delivered,
}
use brunost_judge.Store.Keys.{IsKeyed, delivery_key}

-- An UPDATE that hit its one row leaves none of that key for a test that its result fails.
module _ (i : String) (p q : Delivery → Bool) (f : Delivery → Delivery)
    (keeps : (d : Delivery) → delivery_key (f d) ≡ delivery_key d)
    (p_key : (d : Delivery) → p d ≡ true → delivery_key d ≡ i)
    (q_key : (d : Delivery) → q d ≡ true → delivery_key d ≡ i)
    (fails : (d : Delivery) → p d ≡ true → q (f d) ≡ false) where
  rest_is_empty :
      (d : Delivery) (rows : List Delivery)
      → IsUnique delivery_key (d ∷ rows)
      → delivery_key d ≡ i
      → exists_where (has delivery_key i) rows ≡ false
  rest_is_empty d rows u e = subst (λ k. exists_where (has delivery_key k) rows ≡ false) e u.0

  pub after_update :
      (rows : List Delivery)
      → IsUnique delivery_key rows
      → rowcount p rows ≡ 1
      → rowcount q (update_where p f rows) ≡ 0
  unfolding rowcount update_where
  after_update [] u h = absurd (omega arith)
  after_update (d ∷ rows) u h = elim (Bool-cases (p d)) [
    | inl hit ↦
        rw (hit, fails d hit)
          (rowcount_absent delivery_key i q q_key (update_where p f rows) (
            exists-update (has delivery_key i) p f (λ x. rw keeps) rows
            ∙ rest_is_empty d rows u (p_key d hit)))
    | inr miss ↦ elim (Bool-cases (q d)) [
      | inl free ↦
          let none_left =
            rowcount_absent delivery_key i p p_key rows (rest_is_empty d rows u (q_key d free)) in
          absurd (ground arith)
      | inr taken ↦ rw (miss, taken) (after_update rows u.1 (ground arith))
    ]
  ]

claim_names : (i : String) (now : ℕ) (d : Delivery) → can_claim i now d ≡ true → delivery_key d ≡ i
claim_names i now d h = ==→eq d.execution_id i (ground arith)

claim_blocks :
    (i w : String) (seconds later now : ℕ) (d : Delivery)
    → later < lease_until now seconds
    → can_claim i now d ≡ true
    → can_claim i later (claimed_by w (lease_until now seconds) d) ≡ false
claim_blocks i w seconds later now d h c = ground arith

pub won_once : (n : ℕ) → nat_eq n 1 ≡ true → n ≡ 1
won_once n h = ground arith

-- The worker that claims a delivery has it alone until the lease ends: another claim of it in that
-- time gets nothing.
pub claim_is_exclusive :
    (i v w : String) (seconds again now later : ℕ) (s : JudgeStore)
    → IsKeyed s
    → later < lease_until now seconds
    → (claim_callback i w seconds now s).0 ≡ true
    → (claim_callback i v again later (claim_callback i w seconds now s).1).0 ≡ false
unfolding claim_callback
claim_is_exclusive i v w seconds again now later s k live won =
    let zero_hit =
      after_update i (can_claim i now) (can_claim i later) (claimed_by w (lease_until now seconds))
        (λ d. refl) (claim_names i now) (claim_names i later)
        (λ d c. claim_blocks i w seconds later now d live c) s.callback_deliveries k.deliveries
        (won_once _ won) in
    rw zero_hit

-- A delivery that one worker has claimed is acknowledged by no other worker: the call returns
-- `False`, and the store stays as it is.
pub only_owner_acknowledges :
    (i v w : String) (seconds now later : ℕ) (s : JudgeStore)
    → IsKeyed s
    → w ≢ v
    → (claim_callback i w seconds now s).0 ≡ true
    → let s' = (claim_callback i w seconds now s).1 in
      mark_callback_delivered_by_owner i v later s' ≡ (false, s')
unfolding claim_callback mark_callback_delivered_by_owner
only_owner_acknowledges i v w seconds now later s k other won =
    let zero_hit =
      after_update i (can_claim i now) (holds_delivery i v) (claimed_by w (lease_until now seconds))
        (λ d. refl) (claim_names i now) (λ d h. ==→eq d.execution_id i (ground arith))
        (λ d c. ground (arith, eq_iff w v)) s.callback_deliveries k.deliveries (won_once _ won) in
    rw (zero_hit, update-none (holds_delivery i v) (delivered later) _ zero_hit)
