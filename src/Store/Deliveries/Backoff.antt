-- ===== src/Store/Deliveries/Backoff.antt =====
-- The delay after a failed delivery, and what it does to the list of pending deliveries.
use brunost_judge.Prelude.{
  All, ℕ, zero, suc, ◌+◌, ◌*◌, ◌^◌, ◌≤◌, ◌<◌, String, ◌≡◌, ◌≢◌, refl, inl, inr, true, false, ◌&&◌,
  Option, none, some, List, [], ◌∷◌, take, min, leb, arith, ==→eq, eq_refl,
}
use brunost_judge.Sql.Keys.{All-of_Occurs, Occurs, select-Occurs, order-Occurs, rowcount-pos}
use brunost_judge.Store.{Delivery, JudgeStore, is_for}
use brunost_judge.Store.Keys.{IsKeyed}
use brunost_judge.Store.Deliveries.{
  retry_delay, mark_callback_failed, callback_attempts, failed_at, fails_for, first_chars,
  pending_callbacks, is_pending,
}
use brunost_judge.Store.Deliveries.Exclusive.{after_update, won_once}

pow_pos : (n : ℕ) → 1 ≤ 2 ^ n
pow_pos zero = omega arith
pow_pos (suc n) = omega (arith, pow_pos n)

pow_mono : (m n : ℕ) → m ≤ n → 2 ^ m ≤ 2 ^ n
pow_mono zero n h = omega (arith, pow_pos n)
pow_mono (suc m) zero h = absurd (omega arith)
pow_mono (suc m) (suc n) h = omega (arith, pow_mono m n (omega arith))

-- The delay before the next attempt lies between 5 and 1280 seconds, so the limit of 3600 seconds
-- is never what decides it, and it does not shrink from one failure to the next.
pub retry_delay_bounds :
    (n : ℕ)
    → (5 ≤ retry_delay n)
      × (retry_delay n ≤ 1280)
      × (retry_delay n ≡ 5 * 2 ^ min 8 n)
      × (retry_delay n ≤ retry_delay (suc n))
unfolding retry_delay
retry_delay_bounds n =
    let low = pow_pos (min 8 n) in
    let high : 2 ^ min 8 n ≤ 256 = pow_mono (min 8 n) 8 (omega arith) in
    let grows = pow_mono (min 8 n) (min 8 (suc n)) (omega arith) in
    (
      omega (arith, low, high),
      omega (arith, low, high),
      omega (arith, low, high),
      omega (arith, low, high, grows),
    )

waits : (t now n : ℕ) → t < now + 5 * 1000000 → leb (now + retry_delay n * 1000000) t ≡ false
waits t now n soon = ground (arith, (retry_delay_bounds n).0)

take-Occurs : (n : ℕ) (rows : List Delivery) (d : Delivery) → Occurs d (take n rows) → Occurs d rows
take-Occurs zero rows d o = absurd o
take-Occurs (suc n) [] d o = absurd o
take-Occurs (suc n) (x ∷ rows) d (inl e) = inl e
take-Occurs (suc n) (x ∷ rows) d (inr o) = inr (take-Occurs n rows d o)

pending-Occurs :
    (now limit : ℕ) (s : JudgeStore) (d : Delivery)
    → Occurs d (pending_callbacks now limit s)
    → Occurs d s.callback_deliveries × (is_pending now s d ≡ true)
unfolding pending_callbacks
pending-Occurs now limit s d o =
    select-Occurs (is_pending now s) s.callback_deliveries d
      (order-Occurs _ _ d (take-Occurs limit _ d o))

names_it :
    (i : String) (w : Option String) (d : Delivery) → fails_for i w d ≡ true → d.execution_id ≡ i
names_it i none d h = ==→eq d.execution_id i h
names_it i (some w) d h = ==→eq d.execution_id i (ground arith)

still_waits :
    (i error : String) (w : Option String) (now t limit : ℕ) (s : JudgeStore) (d : Delivery)
    → IsKeyed s
    → (mark_callback_failed i error w now s).0 ≡ true
    → t < now + 5 * 1000000
    → Occurs d (pending_callbacks t limit (mark_callback_failed i error w now s).1)
    → d.execution_id ≢ i
unfolding mark_callback_failed
still_waits i error w now t limit s d k done soon listed e =
    let s' = (mark_callback_failed i error w now s).1 in
    let next = now + retry_delay (callback_attempts i s) * 1000000 in
    let (there, due) = pending-Occurs t limit s' d listed in
    let none_left =
      after_update i (fails_for i w) (λ c. is_for i c && is_pending t s' c)
        (failed_at next (first_chars 2000 error)) (λ c. refl) (names_it i w)
        (λ c h. ==→eq c.execution_id i (ground arith))
        (λ c h. ground (arith, waits t now (callback_attempts i s) soon)) s.callback_deliveries
        k.deliveries (won_once _ done) in
    let some_left =
      rowcount-pos (λ c. is_for i c && is_pending t s' c) d s'.callback_deliveries there
        (ground (arith, due, e, eq_refl i)) in
    absurd (omega (arith, none_left, some_left))

-- After a failed attempt, the delivery is not listed as pending in the five seconds that follow.
pub failed_delivery_waits :
    (i error : String) (w : Option String) (now t limit : ℕ) (s : JudgeStore)
    → IsKeyed s
    → (mark_callback_failed i error w now s).0 ≡ true
    → t < now + 5 * 1000000
    → All
        (λ d. d.execution_id ≢ i)
        (pending_callbacks t limit (mark_callback_failed i error w now s).1)
failed_delivery_waits i error w now t limit s k done soon =
    All-of_Occurs (λ d. d.execution_id ≢ i) _
      (λ d listed. still_waits i error w now t limit s d k done soon listed)
