-- ===== src/Sdk/RwMutex.antt =====
-- sdk/go/rwmutex/rwmutex.go
pub mod Exclusion
pub mod Locking
pub mod Progress
pub mod RoundTrip
use konductor.Prelude.{
  ◌*◌, ℤ, pos, pos_part, ltb_ℤ, ltb, ◌==◌, Bool, true, false, not, ◌||◌, String, str_eq, is_blank,
  Option, none, some, List, [], ◌∷◌, ◌++◌, length, filter, any, Action, return, ◌>>=◌,
  if◌then◌else◌,
}
use konductor.Api.Meta.{Time, Duration, add, millisecond, second}
use konductor.Api.Errors.{Error, Result, ok, err, errorf, wrap}
use konductor.Api.Locks.{RwMutex, RwMutexPhase}
use konductor.Client.{now}
use konductor.Sdk.Host.{Host, resolve_holder, key, new_meta}
use konductor.Sdk.Options.{Setter, no_options, apply}
use konductor.Sdk.Wait.{WaitConfig, wait_for_condition, retry_with_backoff}

-- `RWMutex` of the SDK: an acquired lock.
pub record Handle : Type 0 where
  pub name : String
  pub holder : String
  pub is_read : Bool

-- Without a TTL in the spec `ExpiresAt` stays as it was.
abbrev pub expiry : Time → Option Duration → Option Time → Option Time
expiry t none old = old
expiry t (some ttl) old = some (add t ttl)

abbrev pub first_of : Time → Option Time → Option Time
first_of t none = some t
first_of t (some old) = some old

-- From the `Get` to the `Update` of `RLock`: the holder joins the readers, whether or not it is one.
unfoldable pub claim_read : Time → String → RwMutex → Result RwMutex
claim_read t holder rw =
    if is_blank rw.status.write_holder
    then ok (record rw {
      status = record rw.status {
        phase = RwMutexPhase.read_locked;
        read_holders = rw.status.read_holders ++ (holder ∷ []);
        locked_at = first_of t rw.status.locked_at;
        expires_at = expiry t rw.spec.ttl rw.status.expires_at;
      };
    })
    else err (errorf "cannot acquire read lock: write lock is held")

-- From the `Get` to the `Update` of `Lock`.
unfoldable pub claim_write : Time → String → RwMutex → Result RwMutex
claim_write t holder rw =
    if not (is_blank rw.status.write_holder) || ltb 0 (length rw.status.read_holders)
    then err (errorf "rwmutex locked")
    else ok (record rw {
      status = record rw.status {
        phase = RwMutexPhase.write_locked;
        write_holder = holder;
        locked_at = some t;
        expires_at = expiry t rw.spec.ttl rw.status.expires_at;
      };
    })

abbrev pub others : String → List String → List String
others holder = filter (λ h. not (str_eq h holder))

-- From the `Get` to the `Update` of `runlock`: every entry of the holder goes.
unfoldable pub release_read : String → RwMutex → Result RwMutex
release_read holder rw =
    if any (λ h. str_eq h holder) rw.status.read_holders
    then (let rest = others holder rw.status.read_holders in
        ok (record rw {
          status =
              if length rest == 0
              then record rw.status {
                read_holders = rest;
                phase = RwMutexPhase.unlocked;
                locked_at = none;
                expires_at = none;
              }
              else record rw.status { read_holders = rest };
        }))
    else err (errorf "cannot unlock: not a read lock holder")

-- From the `Get` to the `Update` of `wunlock`.
unfoldable pub release_write : String → RwMutex → Result RwMutex
release_write holder rw =
    if str_eq rw.status.write_holder holder
    then ok (record rw {
      status = record rw.status {
        phase = RwMutexPhase.unlocked;
        write_holder = "";
        locked_at = none;
        expires_at = none;
      };
    })
    else err (errorf "cannot unlock: not the holder")

abbrev pub wait_config : Duration → WaitConfig
wait_config timeout = record {
  initial_delay = 1 * second;
  max_delay = 5 * second;
  factor = 15;
  jitter = 1;
  timeout = if ltb_ℤ (pos 0) timeout then pos_part timeout else 30 * second;
  operator_delay = 0;
}

abbrev pub confirm_read_config : WaitConfig
confirm_read_config = record {
  initial_delay = 100 * millisecond;
  max_delay = 1 * second;
  factor = 0;
  jitter = 0;
  timeout = 2 * second;
  operator_delay = 0;
}

module _ {W : Type 0} (h : Host W) where
  -- A read, a change of what was read, and the update: the closures that `RetryWithBackoff` runs.
  unfoldable pub change_once :
      String → (Time → RwMutex → Result RwMutex) → Action W (Result (Unit {0}))
  change_once name change = do
    found ← h.client.rw_mutexes.get (key h name)
    elim found [
      | err e ↦ return (err e)
      | ok rw ↦ do
        t ← now h.client
        elim (change t rw) [
          | err e ↦ return (err e)
          | ok changed ↦ h.client.rw_mutexes.status_update changed
        ]
    ]

  -- The methods `runlock`, `wunlock` and `Unlock`.
  pub unlock_handle : Handle → Action W (Result (Unit {0}))
  unfolding change_once
  unlock_handle m =
      if m.is_read
      then retry_with_backoff h (change_once m.name (λ t. release_read m.holder)) none
      else retry_with_backoff h (change_once m.name (λ t. release_write m.holder)) none

  -- The function `Unlock` finds out which lock the holder has.
  pub unlock : String → String → Action W (Result (Unit {0}))
  unfolding unlock_handle
  unlock name holder = do
    found ← h.client.rw_mutexes.get (key h name)
    elim found [
      | err e ↦ return (err (wrap "failed to get rwmutex" e))
      | ok rw ↦ unlock_handle (record {
        name = name;
        holder = holder;
        is_read = any (λ x. str_eq x holder) rw.status.read_holders;
      })
    ]

  -- `RLock` returns the handle and what became of the confirmation.
  unfoldable pub rlock : String → List Setter → Action W (Result (Handle × Result (Unit {0})))
  unfolding change_once
  rlock name opts = do
    let options = apply opts no_options
    holder ← resolve_holder h options.holder
    acquired ←
        retry_with_backoff h (change_once name (λ t. claim_read t holder))
          (some (wait_config options.timeout))
    elim acquired [
      | err e ↦ return (err (wrap "timeout acquiring read lock" e))
      | ok _ ↦ do
        seen ←
            wait_for_condition h h.client.rw_mutexes (key h name)
              (λ rw. any (λ x. str_eq x holder) rw.status.read_holders) (some confirm_read_config)
        return (ok (record { name = name; holder = holder; is_read = true }, seen))
    ]

  unfoldable pub lock : String → List Setter → Action W (Result Handle)
  unfolding change_once
  lock name opts = do
    let options = apply opts no_options
    holder ← resolve_holder h options.holder
    acquired ←
        retry_with_backoff h (change_once name (λ t. claim_write t holder))
          (some (wait_config options.timeout))
    return (elim acquired [
      | err e ↦ err (wrap "timeout acquiring write lock" e)
      | ok _ ↦ ok (record { name = name; holder = holder; is_read = false })
    ])

  -- The object that `Create` sends.
  abbrev pub new_rw_mutex : String → Duration → RwMutex
  new_rw_mutex name ttl = record {
    meta = new_meta h name [] [];
    spec = record { ttl = if ltb_ℤ (pos 0) ttl then some ttl else none };
    status = record {
      write_holder = "";
      read_holders = [];
      locked_at = none;
      expires_at = none;
      phase = RwMutexPhase.unset;
    };
  }

  pub create : String → List Setter → Action W (Result (Unit {0}))
  create name opts = h.client.rw_mutexes.create (new_rw_mutex name (apply opts no_options).ttl)

  pub delete : String → Action W (Result (Unit {0}))
  delete name = h.client.rw_mutexes.delete (key h name)

  pub get : String → Action W (Result RwMutex)
  get name = do
    found ← h.client.rw_mutexes.get (key h name)
    return (elim found [ err e ↦ err (wrap "failed to get rwmutex" e) | ok rw ↦ ok rw ])

  pub list : Action W (Result (List RwMutex))
  list = do
    found ← h.client.rw_mutexes.list h.namespace []
    return (elim found [ err e ↦ err (wrap "failed to list rwmutexes" e) | ok rws ↦ ok rws ])
