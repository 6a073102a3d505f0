-- ===== src/Sdk/Wait/Backoff.antt =====
-- `calculateBackoffSteps` of sdk/go/client/wait.go. Its loop runs on fuel; `panics` is the integer
-- division by zero of its fast path.
pub mod Coverage
pub mod Panic
use konductor.Prelude.{
  ℕ, zero, suc, ◌+◌, ◌-◌, ◌/◌, true, false, ◌&&◌, ltb, leb, ◌==◌, if◌then◌else◌,
}
use konductor.Api.Meta.{millisecond}

pub data Steps : Type 0 where
  steps : ℕ → Steps
  panics : Steps
  out_of_fuel : Steps

abbrev pub max_backoff_steps : ℕ
max_backoff_steps = 1_000_000

abbrev pub capped : ℕ → ℕ
capped n = if ltb max_backoff_steps n then max_backoff_steps else n

module _ (scale : ℕ → ℕ → ℕ) (max_delay factor timeout : ℕ) where
  -- The delay that follows `current`.
  abbrev pub next_delay : ℕ → ℕ
  next_delay current =
      if ltb max_delay (scale factor current) then max_delay else scale factor current

  -- The rest of the steps at once, when the delay no longer grows. Where `elapsed` has passed the
  -- timeout, Go's quotient of the negative rest is 0, as is that of the truncated one here.
  unfoldable pub rest_at_once : ℕ → ℕ → ℕ → Steps
  rest_at_once elapsed current n =
      if current == 0 then panics else steps (n + capped ((timeout - elapsed) / current))

  pub loop : ℕ → ℕ → ℕ → ℕ → Steps
  unfolding rest_at_once
  loop zero elapsed current n = out_of_fuel
  loop (suc fuel) elapsed current n = elim (ltb elapsed timeout) [
    | false ↦ steps n
    | true ↦ elim (next_delay current == current && next_delay current == max_delay) [
      | true ↦ rest_at_once (elapsed + current) (next_delay current) (suc n)
      | false ↦ loop fuel (elapsed + current) (next_delay current) (suc n)
    ]
  ]

abbrev pub positive_delay : ℕ → ℕ
positive_delay d = if d == 0 then millisecond else d

abbrev pub growing : ℕ → ℕ
growing factor = if leb factor 10 then 11 else factor

unfoldable pub calculate_backoff_steps : (ℕ → ℕ → ℕ) → ℕ → ℕ → ℕ → ℕ → Steps
unfolding loop
calculate_backoff_steps scale initial_delay max_delay factor timeout =
    loop scale max_delay (growing factor) timeout (suc timeout) 0 (positive_delay initial_delay) 0
