-- ===== src/Sdk/WaitGroup.antt =====
-- sdk/go/waitgroup/waitgroup.go
pub mod Counting
pub mod Progress
use konductor.Prelude.{
  ◌*◌, ℤ, pos, negsuc, pos_part, ◌+ℤ◌, ltb_ℤ, leb_ℤ, eqb_ℤ, int32, Bool, String, Option, none, some,
  List, [], Action, return, ◌>>=◌, if◌then◌else◌,
}
use konductor.Api.Meta.{Duration, millisecond, second}
use konductor.Api.Errors.{Result, ok, err, wrap, is_already_exists, is_not_found}
use konductor.Api.Counters.{WaitGroup, WaitGroupPhase}
use konductor.Sdk.Host.{Host, key, new_meta}
use konductor.Sdk.Options.{Setter, no_options, apply}
use konductor.Sdk.Wait.{WaitConfig, wait_for_condition, retry_with_backoff}

-- `wg.Status.Counter += delta`, an int32, and then not below 0.
unfoldable pub count : ℤ → ℤ → ℤ
count counter delta = let sum = int32 (counter +ℤ delta) in if ltb_ℤ sum (pos 0) then pos 0 else sum

-- From the `Get` to the `Update` of `Add`.
unfoldable pub advance : ℤ → WaitGroup → WaitGroup
unfolding count
advance delta wg =
    let counter = count wg.status.counter delta in
    record wg {
      status = record {
        counter = counter;
        phase = if leb_ℤ counter (pos 0) then WaitGroupPhase.done else WaitGroupPhase.waiting;
      };
    }

abbrev pub wait_config : Duration → WaitConfig
wait_config timeout = record {
  initial_delay = 500 * millisecond;
  max_delay = 5 * second;
  factor = 15;
  jitter = 1;
  timeout = if ltb_ℤ (pos 0) timeout then pos_part timeout else 30 * second;
  operator_delay = 0;
}

module _ {W : Type 0} (h : Host W) where
  -- The closure that `RetryWithBackoff` runs.
  pub add_once : String → ℤ → Action W (Result (Unit {0}))
  unfolding advance
  add_once name delta = do
    found ← h.client.wait_groups.get (key h name)
    elim found [
      | err e ↦ return (err e)
      | ok wg ↦ h.client.wait_groups.status_update (advance delta wg)
    ]

  -- The wait of `Add` for the counter that it reads after its update.
  pub confirm : String → ℤ → Action W (Result (Unit {0}))
  confirm name expected = do
    seen ←
        wait_for_condition h h.client.wait_groups (key h name)
          (λ wg. eqb_ℤ wg.status.counter expected) none
    return (elim seen [ err e ↦ err (wrap "failed to confirm waitgroup update" e) | ok _ ↦ ok tt ])

  pub add : String → ℤ → Action W (Result (Unit {0}))
  unfolding add_once confirm
  add name delta = do
    updated ← retry_with_backoff h (add_once name delta) none
    elim updated [
      | err e ↦ return (err (wrap "failed to update waitgroup" e))
      | ok _ ↦ do
        found ← h.client.wait_groups.get (key h name)
        elim found [
          | err e ↦ return (err (wrap "failed to read updated waitgroup" e))
          | ok wg ↦ confirm name wg.status.counter
        ]
    ]

  pub done : String → Action W (Result (Unit {0}))
  unfolding add
  done name = add name (negsuc 0)

  pub wait : String → List Setter → Action W (Result (Unit {0}))
  wait name opts = do
    waited ←
        wait_for_condition h h.client.wait_groups (key h name)
          (λ wg. leb_ℤ wg.status.counter (pos 0))
          (some (wait_config (apply opts no_options).timeout))
    return (elim waited [ err e ↦ err (wrap "failed to wait for waitgroup" e) | ok _ ↦ ok tt ])

  pub get : String → Action W (Result WaitGroup)
  get name = do
    found ← h.client.wait_groups.get (key h name)
    return (elim found [ err e ↦ err (wrap "failed to get waitgroup" e) | ok wg ↦ ok wg ])

  pub get_counter : String → Action W (Result ℤ)
  unfolding get
  get_counter name = do
    found ← get name
    return (elim found [ err e ↦ err e | ok wg ↦ ok wg.status.counter ])

  -- The object that `Create` sends.
  abbrev pub new_wait_group : String → Duration → WaitGroup
  new_wait_group name ttl = record {
    meta = new_meta h name [] [];
    spec = record { ttl = if ltb_ℤ (pos 0) ttl then some ttl else none };
    status = record { counter = pos 0; phase = WaitGroupPhase.unset };
  }

  pub create_once : WaitGroup → Action W (Result (Unit {0}))
  create_once wg = do
    made ← h.client.wait_groups.create wg
    return (elim made [ err e ↦ if is_already_exists e then ok tt else err e | ok _ ↦ ok tt ])

  pub create : String → List Setter → Action W (Result (Unit {0}))
  unfolding create_once
  create name opts =
      retry_with_backoff h (create_once (new_wait_group name (apply opts no_options).ttl)) none

  pub delete : String → Action W (Result (Unit {0}))
  delete name = do
    gone ← h.client.wait_groups.delete (key h name)
    return (elim gone [ err e ↦ if is_not_found e then ok tt else err e | ok _ ↦ ok tt ])

  pub list : Action W (Result (List WaitGroup))
  list = do
    found ← h.client.wait_groups.list h.namespace []
    return (elim found [ err e ↦ err (wrap "failed to list waitgroups" e) | ok wgs ↦ ok wgs ])
