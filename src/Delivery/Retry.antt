-- ===== src/Delivery/Retry.antt =====
-- When a delivery is tried again.
use cubingnow.Prelude.{
  ℕ, zero, suc, ◌+◌, ◌-◌, ◌*◌, ◌≤◌, ◌<◌, min, max, false, none, some, List, [], ◌∷◌, ◌≡◌, refl,
  arith, All, leb, get_or, length,
}
use cubingnow.Work.{second}
use cubingnow.Delivery.{NotificationDelivery, DeliveryResult, Policy, retry_delay, schedule_retry}

get_or-le :
    (bound : ℕ) (xs : List ℕ) (i : ℕ)
    → All (λ s. s ≤ bound) xs
    → 60 ≤ bound
    → get_or xs i 60 ≤ bound
get_or-le bound [] i h d = d
get_or-le bound (x ∷ xs) zero h d = h.0
get_or-le bound (x ∷ xs) (suc i) h d = get_or-le bound xs i h.1 d

module _ (policy : Policy) (bound : ℕ) (jitter : (s : ℕ) → policy.draw s ≤ s * 1200000)
    (schedule : All (λ s. s ≤ bound) policy.retry_schedule) (least : 60 ≤ bound) where
  drawn-le :
      (xs : List ℕ) (i : ℕ)
      → All (λ s. s ≤ bound) xs
      → policy.draw (get_or xs i 60) ≤ bound * 1200000
  drawn-le xs i h =
      let at = get_or-le bound xs i h least in
      let most = jitter (get_or xs i 60) in omega (arith, at, most)

  retry_delay-bounds :
      (attempts : ℕ)
      → (second ≤ retry_delay policy attempts)
        × (retry_delay policy attempts ≤ max second (bound * 1200000))
  unfolding retry_delay
  retry_delay-bounds attempts = go policy.retry_schedule schedule
    where
      go :
          (xs : List ℕ)
          → All (λ s. s ≤ bound) xs
          → (let used : List ℕ = elim xs [ [] ↦ 60 ∷ [] | s ∷ rest ↦ s ∷ rest ] in
              let delay =
                max second (policy.draw (get_or used (min (attempts - 1) (length used - 1)) 60)) in
              (second ≤ delay) × (delay ≤ max second (bound * 1200000)))
      go [] h =
          let most = drawn-le (60 ∷ []) (min (attempts - 1) 0) (least, tt) in
          (omega arith, omega (arith, most))
      go (x ∷ xs) h =
          let most = drawn-le (x ∷ xs) (min (attempts - 1) (length (x ∷ xs) - 1)) h in
          (omega arith, omega (arith, most))

  -- Where a drawn delay is at most a fifth longer than its number of seconds, and no number of the
  -- schedule exceeds a bound of at least 60, a failure that names no time and is not the last that is
  -- allowed schedules the next attempt at least a second and at most the greater of a second and the
  -- bound with a fifth more from now.
  pub schedule_retry-bounds :
      (now : ℕ) (result : DeliveryResult) (d : NotificationDelivery)
      → result.retry_at ≡ none
      → d.attempt_count < policy.max_attempts
      → (t : ℕ) × ((schedule_retry policy now result d).next_attempt_at ≡ some t)
        × (now + second ≤ t)
        × (t ≤ now + max second (bound * 1200000))
  unfolding schedule_retry
  schedule_retry-bounds now result d no_time few =
      let below : leb policy.max_attempts d.attempt_count ≡ false = ground arith in
      let (least_delay, most_delay) = retry_delay-bounds d.attempt_count in
      (
        now + retry_delay policy d.attempt_count,
        (rw (below, no_time) refl),
        omega (arith, least_delay),
        omega (arith, most_delay),
      )
