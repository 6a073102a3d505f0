-- ===== src/Sdk/Mutex.antt =====
-- sdk/go/mutex/mutex.go
pub mod Exclusion
pub mod Objects
pub mod Locking
pub mod Progress
pub mod Scoped
use konductor.Prelude.{
  ◌≡◌, ℕ, ◌*◌, ℤ, pos, pos_part, ltb_ℤ, Bool, true, false, not, ◌&&◌, String, str_eq, is_blank,
  Option, none, some, List, [], Action, return, ◌>>=◌, if◌then◌else◌,
}
use konductor.Api.Meta.{Time, Duration, ObjectKey, ObjectMeta, add, millisecond, second}
use konductor.Api.Errors.{
  Error, Result, ok, err, errorf, wrap, is_conflict, is_already_exists, is_not_found,
}
use konductor.Api.Locks.{Mutex, MutexSpec, MutexStatus, MutexPhase, is_locked}
use konductor.Client.{now}
use konductor.Sdk.Host.{Host, resolve_holder, key, new_meta}
use konductor.Sdk.Options.{Options, Setter, no_options, apply}
use konductor.Sdk.Wait.{WaitConfig, wait_for_condition, retry_with_backoff}

-- `Mutex` of the SDK: an acquired lock.
pub record Handle : Type 0 where
  pub name : String
  pub holder : String

-- The status with the TTL of the spec; without one `ExpiresAt` stays as it was.
abbrev pub expiry : Time → Option Duration → Option Time → Option Time
expiry t none old = old
expiry t (some ttl) old = some (add t ttl)

-- From the `Get` to the `Update` of `Lock` and `TryLock`, which differ in the text of the error.
unfoldable pub claim : Time → String → Mutex → Result Mutex
claim t holder m =
    if is_locked m.status.phase && not (is_blank m.status.holder)
    then err (errorf "mutex locked by %s")
    else ok (record m {
      status = record {
        phase = MutexPhase.locked;
        holder = holder;
        locked_at = some t;
        expires_at = expiry t m.spec.ttl m.status.expires_at;
      };
    })

-- From the `Get` to the `Update` of `Unlock`.
unfoldable pub release : String → Mutex → Result Mutex
release holder m =
    if str_eq m.status.holder holder
    then ok (record m {
      status = record {
        phase = MutexPhase.unlocked;
        holder = "";
        locked_at = none;
        expires_at = none;
      };
    })
    else err (errorf "cannot unlock: not the holder")

abbrev pub lock_config : Duration → WaitConfig
lock_config timeout = record {
  initial_delay = 1 * second;
  max_delay = 5 * second;
  factor = 15;
  jitter = 1;
  timeout = if ltb_ℤ (pos 0) timeout then pos_part timeout else 30 * second;
  operator_delay = 0;
}

abbrev pub acquire_config : WaitConfig
acquire_config = record {
  initial_delay = 100 * millisecond;
  max_delay = 1 * second;
  factor = 0;
  jitter = 0;
  timeout = 5 * second;
  operator_delay = 0;
}

abbrev pub confirm_config : WaitConfig
confirm_config = record {
  initial_delay = 100 * millisecond;
  max_delay = 500 * millisecond;
  factor = 15;
  jitter = 0;
  timeout = 2 * second;
  operator_delay = 0;
}

abbrev pub try_config : Duration → WaitConfig
try_config timeout = record {
  initial_delay = 50 * millisecond;
  max_delay = 100 * millisecond;
  factor = 0;
  jitter = 0;
  timeout = pos_part timeout;
  operator_delay = 0;
}

module _ {W : Type 0} (h : Host W) where
  -- The closures that `RetryWithBackoff` runs.
  unfoldable pub lock_once : String → String → Action W (Result (Unit {0}))
  lock_once name holder = do
    found ← h.client.mutexes.get (key h name)
    elim found [
      | err e ↦ return (err e)
      | ok m ↦ do
        t ← now h.client
        elim (claim t holder m) [
          | err e ↦ return (err e)
          | ok claimed ↦ h.client.mutexes.status_update claimed
        ]
    ]

  pub unlock_once : Handle → Action W (Result (Unit {0}))
  unlock_once m = do
    found ← h.client.mutexes.get (key h m.name)
    elim found [
      | err e ↦ return (err (wrap "failed to get mutex" e))
      | ok mutex ↦ elim (release m.holder mutex) [
        | err e ↦ return (err e)
        | ok released ↦ h.client.mutexes.status_update released
      ]
    ]

  -- The method `Unlock`, and the function.
  pub unlock_handle : Handle → Action W (Result (Unit {0}))
  unfolding unlock_once
  unlock_handle m =
      if is_blank m.holder
      then return (err (errorf "holder cannot be empty"))
      else retry_with_backoff h (unlock_once m) none

  pub unlock : String → String → Action W (Result (Unit {0}))
  unfolding unlock_handle
  unlock name holder = unlock_handle (record { name = name; holder = holder })

  -- The error of a wait that failed: `%w` of the context's, if it is done, or of the wait's.
  abbrev pub waited_for : String → String → Error → Action W Error
  waited_for cancelled_text text e w =
      (elim (h.context_error w) [ some ctx ↦ wrap cancelled_text ctx | none ↦ wrap text e ], w)

  unfoldable pub confirm : String → String → Action W (Result Handle)
  confirm name holder = do
    seen ←
        wait_for_condition h h.client.mutexes (key h name)
          (λ m. is_locked m.status.phase && str_eq m.status.holder holder) (some confirm_config)
    return (elim seen [
      | err e ↦ err (wrap "failed to confirm mutex lock" e)
      | ok _ ↦ ok (record { name = name; holder = holder })
    ])

  unfoldable pub acquire : String → String → Action W (Result Handle)
  unfolding lock_once confirm
  acquire name holder = do
    acquired ← retry_with_backoff h (lock_once name holder) (some acquire_config)
    elim acquired [
      | err e ↦ do
        e' ← waited_for "context cancelled while acquiring mutex" "failed to acquire mutex lock" e
        return (err e')
      | ok _ ↦ confirm name holder
    ]

  unfoldable pub lock : String → List Setter → Action W (Result Handle)
  unfolding acquire
  lock name opts = if is_blank name then return (err (errorf "mutex name cannot be empty")) else (do
    let options = apply opts no_options
    holder ← resolve_holder h options.holder
    free ←
        wait_for_condition h h.client.mutexes (key h name) (λ m. not (is_locked m.status.phase))
          (some (lock_config options.timeout))
    elim free [
      | err e ↦ do
        e' ← waited_for "context cancelled while waiting for mutex" "timeout acquiring mutex" e
        return (err e')
      | ok _ ↦ acquire name holder
    ])

  pub try_lock : String → List Setter → Action W (Result Handle)
  unfolding lock_once
  try_lock name opts =
      if is_blank name then return (err (errorf "mutex name cannot be empty")) else (do
        let options = apply opts (record no_options { timeout = pos (100 * millisecond) })
        holder ← resolve_holder h options.holder
        acquired ← retry_with_backoff h (lock_once name holder) (some (try_config options.timeout))
        return (elim acquired [
          | err e ↦
              if is_conflict e
              then err (errorf "mutex locked by another process")
              else err (wrap "failed to acquire mutex" e)
          | ok _ ↦ ok (record { name = name; holder = holder })
        ]))

  -- `With`: the error of `fn` comes before that of the deferred `Unlock`.
  pub with_lock : String → Action W (Result (Unit {0})) → List Setter → Action W (Result (Unit {0}))
  unfolding lock unlock_handle
  with_lock name fn opts = do
    locked ← lock name opts
    elim locked [
      | err e ↦ return (err e)
      | ok mutex ↦ do
        done ← fn
        unlocked ← unlock_handle mutex
        return (elim done [
          | err e ↦ err e
          | ok _ ↦ elim unlocked [
            | err e ↦ err (wrap "function succeeded but failed to unlock mutex" e)
            | ok _ ↦ ok tt
          ]
        ])
    ]
