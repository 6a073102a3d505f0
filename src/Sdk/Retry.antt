-- ===== src/Sdk/Retry.antt =====
-- sdk/go/client/retry.go. The update functions change a copy of the object that was read: here they
-- give the changed object, or an error.
pub mod Update
use konductor.Prelude.{ℕ, ◌*◌, Bool, Action, return, ◌>>=◌}
use konductor.Api.Meta.{ObjectKey, Object, millisecond, second}
use konductor.Api.Errors.{Result, ok, err}
use konductor.Client.Server.{Resource}
use konductor.Sdk.Host.{Host, Backoff}
use konductor.Sdk.Wait.{poll, attempt}

-- `Factor` in tenths.
pub record RetryConfig : Type 0 where
  pub initial_delay : ℕ
  pub max_delay : ℕ
  pub factor : ℕ
  pub max_retries : ℕ
  pub operator_delay : ℕ

abbrev pub default_retry_config : RetryConfig
default_retry_config = record {
  initial_delay = 100 * millisecond;
  max_delay = 5 * second;
  factor = 20;
  max_retries = 10;
  operator_delay = 2 * second;
}

abbrev pub retry_backoff : RetryConfig → Backoff
retry_backoff config = record {
  duration = config.initial_delay;
  factor = config.factor;
  steps = config.max_retries;
  cap = config.max_delay;
}

module _ {W : Type 0} (h : Host W) where
  unfoldable pub retry_on_conflict : Action W (Result (Unit {0})) → Action W (Result (Unit {0}))
  retry_on_conflict fn = h.exponential_backoff (retry_backoff default_retry_config) (attempt h fn)

  unfoldable pub wait_for_update :
      {S T : Type 0}
      → Resource W S T
      → ObjectKey
      → (Object S T → Bool)
      → Action W (Result (Unit {0}))
  wait_for_update r k check = do
    slept ← h.sleep default_retry_config.operator_delay
    elim slept [
      | err e ↦ return (err e)
      | ok _ ↦ h.exponential_backoff (retry_backoff default_retry_config) (poll h r k check)
    ]

  -- The closures of the two updates, from the call that writes.
  unfoldable pub edit_once :
      {S T : Type 0}
      → Resource W S T
      → (Object S T → Action W (Result (Unit {0})))
      → ObjectKey
      → (Object S T → Result (Object S T))
      → Action W (Result (Unit {0}))
  edit_once r write k update_fn = do
    found ← r.get k
    elim found [
      | err e ↦ return (err e)
      | ok latest ↦ elim (update_fn latest) [ err e ↦ return (err e) | ok changed ↦ write changed ]
    ]

  unfoldable pub update_with_retry :
      {S T : Type 0}
      → Resource W S T
      → ObjectKey
      → (Object S T → Result (Object S T))
      → Action W (Result (Unit {0}))
  update_with_retry r k update_fn = retry_on_conflict (edit_once r r.update k update_fn)

  unfoldable pub status_update_with_retry :
      {S T : Type 0}
      → Resource W S T
      → ObjectKey
      → (Object S T → Result (Object S T))
      → Action W (Result (Unit {0}))
  status_update_with_retry r k update_fn =
      retry_on_conflict (edit_once r r.status_update k update_fn)
