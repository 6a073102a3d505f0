-- ===== src/Examples/Retries.antt =====
-- Waits and retries over the host in memory.
use konductor.Prelude.{arith, ◌≡◌, refl, ℕ, ◌+◌, ◌≤◌}
use konductor.Memory.Host.{host}
use konductor.Sdk.Wait.{default_wait_config}
use konductor.Sdk.Wait.Backoff.{Steps, calculate_backoff_steps}
use konductor.Sdk.Wait.Backoff.Coverage.{waited, calculate_backoff_steps_lem}

-- A default wait makes 9 checks at most.
default_steps :
    calculate_backoff_steps host.scale default_wait_config.initial_delay
      default_wait_config.max_delay default_wait_config.factor default_wait_config.timeout
    ≡ Steps.steps 9
unfolding calculate_backoff_steps
default_steps = refl

calculate_backoff_steps_lem_example :
    (n : ℕ) × (calculate_backoff_steps host.scale 100 400 15 1000 ≡ Steps.steps n)
    × (1000 ≤ waited host.scale 400 15 1000 100 n + 400)
calculate_backoff_steps_lem_example =
    calculate_backoff_steps_lem host.scale 100 400 15 1000 (λ d p. omega arith) (omega arith)
      (omega arith)
