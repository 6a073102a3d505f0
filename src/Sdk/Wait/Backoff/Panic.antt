-- ===== src/Sdk/Wait/Backoff/Panic.antt =====
-- When `calculateBackoffSteps` of sdk/go/client/wait.go divides by zero.
use konductor.Prelude.{◌≡◌, ℕ, zero, suc, ◌<◌, arith}
use konductor.Sdk.Wait.Backoff.{
  panics, next_delay, rest_at_once, loop, positive_delay, growing, calculate_backoff_steps,
}

module _ (scale : ℕ → ℕ → ℕ) (factor timeout : ℕ) where
  next_of_limit : (current : ℕ) → next_delay scale 0 factor timeout current ≡ 0
  next_of_limit current = ground arith

  -- Once the delay is the limit, zero, the next round divides by it.
  loop_at_limit :
      (fuel elapsed n : ℕ)
      → elapsed < timeout
      → loop scale 0 factor timeout (suc fuel) elapsed 0 n ≡ panics
  unfolding loop rest_at_once
  loop_at_limit fuel elapsed n early = ground (arith, next_of_limit 0)

  loop_falls :
      (fuel current n : ℕ)
      → 0 < current
      → current < timeout
      → loop scale 0 factor timeout (suc (suc fuel)) 0 current n ≡ panics
  unfolding loop rest_at_once
  loop_falls fuel current n grown early =
      ground (arith, next_of_limit current, loop_at_limit fuel current (suc n) early)

-- With a limit of zero on the delays the number of steps panics, whatever the scaling is, if the
-- first delay is shorter than the timeout.
pub zero_limit_panics :
    (scale : ℕ → ℕ → ℕ) (initial_delay factor timeout : ℕ)
    → positive_delay initial_delay < timeout
    → calculate_backoff_steps scale initial_delay 0 factor timeout ≡ panics
unfolding calculate_backoff_steps
zero_limit_panics scale initial_delay factor zero early = absurd (omega arith)
zero_limit_panics scale initial_delay factor (suc timeout) early =
    loop_falls scale (growing factor) (suc timeout) timeout (positive_delay initial_delay) 0
      (ground arith) early
