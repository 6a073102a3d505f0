-- ===== src/Sdk/Wait/Progress.antt =====
-- That the waits and retries of sdk/go/client/wait.go end at once, where nothing keeps them.
use konductor.Prelude.{
  ◌≡◌, refl, ◌∙◌, ℕ, suc, ◌*◌, ◌≤◌, ◌<◌, Bool, true, Option, some, Action, arith,
}
use konductor.Api.Meta.{ObjectKey, Object}
use konductor.Api.Errors.{Result, ok}
use konductor.Client.Server.{Resource, Serves}
use konductor.Client.Server.Availability.{Answers}
use konductor.Sdk.Host.{Host}
use konductor.Sdk.Host
use konductor.Sdk.Wait.{
  WaitConfig, or_default, default_wait_config, backoff_of, back_off, poll, wait_for_condition,
  attempt, retry_with_backoff,
}
use konductor.Sdk.Wait.Backoff.{max_backoff_steps, growing}
use konductor.Sdk.Wait.Backoff.Coverage.{calculate_backoff_steps_positive}

-- What `wait.ExponentialBackoff` documents of its first check: it comes before any sleep.
abbrev pub ChecksFirst : {W : Type 0} → Host W → Type 0
ChecksFirst {W} h =
    (b : Host.Backoff) (check : Action W (Result Bool)) (w w' : W)
    → 0 < b.steps
    → check w ≡ (ok true, w')
    → h.exponential_backoff b check w ≡ (ok tt, w')

-- A factor of more than 1 keeps a delay positive.
abbrev pub Scales : {W : Type 0} → Host W → Type 0
Scales h = (factor d : ℕ) → 10 < factor → 0 < d → 0 < h.scale factor d

-- A host on which nothing else happens to one kind of objects: its server answers, its sleeps leave
-- the objects alone, and its waits check first.
pub record Undisturbed {W S T : Type 0} (h : Host W) (r : Resource W S T)
    (stored : W → ObjectKey → Option (Object S T)) : Type 0 where
  pub serves : Serves r stored
  pub answers : Answers r stored
  pub sleeps :
      (d : ℕ) (w : W)
      → (u : W) × (h.sleep d w ≡ (ok tt, u)) × ((k : ObjectKey) → stored u k ≡ stored w k)
  pub checks : ChecksFirst h
  pub scales : Scales h

-- A configuration with a timeout, of at most a million times its longest delay.
pub record IsTimed (config : WaitConfig) : Type 0 where
  pub delays : 0 < config.max_delay
  pub times_out : 0 < config.timeout
  pub limited : config.timeout ≤ max_backoff_steps * config.max_delay

pub default-IsTimed : IsTimed default_wait_config
default-IsTimed = record { delays = omega arith; times_out = omega arith; limited = omega arith }

module _ {W S T : Type 0} (h : Host W) (r : Resource W S T)
    (stored : W → ObjectKey → Option (Object S T)) (calm : Undisturbed h r stored) where
  backoff_starts :
      (config : WaitConfig)
      → IsTimed config
      → (b : Host.Backoff) × (backoff_of h config ≡ ok b) × (0 < b.steps)
  unfolding backoff_of
  backoff_starts config timed =
      let (k, computes) =
        calculate_backoff_steps_positive h.scale config.initial_delay config.max_delay config.factor
          config.timeout (λ d p. calm.scales (growing config.factor) d (ground arith) p)
          timed.delays timed.times_out timed.limited in
      (
        record {
          duration = config.initial_delay;
          factor = config.factor;
          steps = suc k;
          cap = config.max_delay;
        },
        rw (computes, backoff_of) refl,
        omega arith,
      )

  back_off_at_once :
      (config : WaitConfig) (check : Action W (Result Bool)) (w w' : W)
      → IsTimed config
      → check w ≡ (ok true, w')
      → back_off h config check w ≡ (ok tt, w')
  unfolding back_off
  back_off_at_once config check w w' timed e =
      let (b, computes, some_steps) = backoff_starts config timed in
      rw (computes, back_off) (calm.checks b check w w' some_steps e)

  -- An operation that succeeds at the first attempt is not retried.
  pub retry_at_once :
      (fn : Action W (Result (Unit {0}))) (config : Option WaitConfig) (w w' : W)
      → IsTimed (or_default config)
      → fn w ≡ (ok tt, w')
      → retry_with_backoff h fn config w ≡ (ok tt, w')
  unfolding retry_with_backoff attempt
  retry_at_once fn config w w' timed e =
      back_off_at_once (or_default config) (attempt h fn) w w' timed (ground arith)

  -- A condition that holds at the first read is not waited for.
  pub wait_at_once :
      (k : ObjectKey) (condition : Object S T → Bool) (config : Option WaitConfig) (o : Object S T)
      (w : W)
      → IsTimed (or_default config)
      → stored w k ≡ some o
      → condition o ≡ true
      → (w' : W) × (wait_for_condition h r k condition config w ≡ (ok tt, w'))
        × ((j : ObjectKey) → stored w' j ≡ stored w j)
  unfolding wait_for_condition poll
  wait_at_once k condition config o w timed held holds =
      let (u, slept, aside) = calm.sleeps (or_default config).operator_delay w in
      let read : r.get k u ≡ (ok o, u) = calm.answers.finds k u o (aside k ∙ held) in
      let checked : poll h r k condition u ≡ (ok true, u) = ground arith in
      let backed = back_off_at_once (or_default config) (poll h r k condition) u u timed checked in
      (u, ground arith, aside)
