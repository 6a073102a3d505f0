-- ===== src/Sdk/Wait.antt =====
-- sdk/go/client/wait.go: how many checks a wait makes, waiting for a condition, and retrying on a
-- conflict. Delays are not negative here: every caller passes constants or a positive timeout.
pub mod Backoff
pub mod Progress
pub mod Retry
use konductor.Prelude.{
  ℕ, ◌*◌, Bool, true, false, Action, return, ◌>>=◌, Option, none, some, if◌then◌else◌,
}
use konductor.Api.Meta.{ObjectKey, Object, millisecond, second}
use konductor.Api.Errors.{Result, ok, err, panicked, is_not_found, is_conflict}
use konductor.Client.Server.{Resource}
use konductor.Sdk.Host.{Host}
use konductor.Sdk.Host
use konductor.Sdk.Wait.Backoff.{calculate_backoff_steps, steps, panics, out_of_fuel}

-- `Factor` and `Jitter` in tenths.
pub record WaitConfig : Type 0 where
  pub initial_delay : ℕ
  pub max_delay : ℕ
  pub factor : ℕ
  pub jitter : ℕ
  pub timeout : ℕ
  pub operator_delay : ℕ

abbrev pub default_wait_config : WaitConfig
default_wait_config = record {
  initial_delay = 500 * millisecond;
  max_delay = 5 * second;
  factor = 15;
  jitter = 1;
  timeout = 30 * second;
  operator_delay = 2 * second;
}

-- `config == nil` stands for the default.
abbrev pub or_default : Option WaitConfig → WaitConfig
or_default none = default_wait_config
or_default (some config) = config

module _ {W : Type 0} (h : Host W) where
  -- The literal of `wait.Backoff`, unless `calculateBackoffSteps` panics.
  unfoldable pub backoff_of : WaitConfig → Result Host.Backoff
  backoff_of config =
      elim (calculate_backoff_steps h.scale config.initial_delay config.max_delay config.factor
        config.timeout) [
          | steps n ↦ ok (record {
            duration = config.initial_delay;
            factor = config.factor;
            steps = n;
            cap = config.max_delay;
          })
          | panics ↦ err panicked
          | out_of_fuel ↦ err panicked
        ]

  -- `wait.ExponentialBackoff` with the backoff of a configuration.
  unfoldable pub back_off : WaitConfig → Action W (Result Bool) → Action W (Result (Unit {0}))
  back_off config check = elim (backoff_of config) [
    | err e ↦ return (err e)
    | ok b ↦ h.exponential_backoff b check
  ]

  -- The check of `WaitForCondition`: an object that is not there yet is waited for.
  unfoldable pub poll :
      {S T : Type 0} → Resource W S T → ObjectKey → (Object S T → Bool) → Action W (Result Bool)
  poll r k condition = do
    found ← r.get k
    return (elim found [
      | err e ↦ if is_not_found e then ok false else err e
      | ok o ↦ ok (condition o)
    ])

  unfoldable pub wait_for_condition :
      {S T : Type 0}
      → Resource W S T
      → ObjectKey
      → (Object S T → Bool)
      → Option WaitConfig
      → Action W (Result (Unit {0}))
  wait_for_condition r k condition config = do
    slept ← h.sleep (or_default config).operator_delay
    elim slept [ err e ↦ return (err e) | ok _ ↦ back_off (or_default config) (poll r k condition) ]

  -- The check of `RetryWithBackoff`: a conflict is tried again, any other error ends it.
  unfoldable pub attempt : Action W (Result (Unit {0})) → Action W (Result Bool)
  attempt fn = do
    done ← fn
    return (elim done [ ok _ ↦ ok true | err e ↦ if is_conflict e then ok false else err e ])

  unfoldable pub retry_with_backoff :
      Action W (Result (Unit {0})) → Option WaitConfig → Action W (Result (Unit {0}))
  retry_with_backoff fn config = back_off (or_default config) (attempt fn)
