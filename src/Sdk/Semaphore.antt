-- ===== src/Sdk/Semaphore.antt =====
-- sdk/go/semaphore/semaphore.go. The owner reference of a permit has the UID that the first read of
-- the semaphore gave; the source takes it from the last read of the wait.
pub mod Acquisition
use konductor.Prelude.{
  ◌*◌, ℤ, pos, pos_part, ltb_ℤ, leb_ℤ, Bool, true, false, ◌&&◌, String, str_append, Option, none,
  some, List, [], ◌∷◌, Action, return, ◌>>=◌, if◌then◌else◌,
}
use konductor.Api.Meta.{Time, Duration, ObjectKey, millisecond, second, minute}
use konductor.Api.Errors.{Error, Result, ok, err, errorf, wrap, is_not_found}
use konductor.Api.Counters.{Semaphore, SemaphorePhase, Permit, PermitPhase, is_granted}
use konductor.Client.{now}
use konductor.Sdk.Host.{Host, resolve_holder, key, new_meta}
use konductor.Sdk.Options.{Options, Setter, no_options, apply}
use konductor.Sdk.Wait.{WaitConfig, wait_for_condition}
use konductor.Sdk.Client.{Held, release_permit}

abbrev pub has_permits : Semaphore → Bool
has_permits s = ltb_ℤ (pos 0) s.status.available

abbrev pub granted_permit : Permit → Bool
granted_permit p = is_granted p.status.phase

-- The two wait configurations of `Acquire`; the second leaves `Factor`, `Jitter` and
-- `OperatorDelay` at zero.
abbrev pub availability_config : Duration → WaitConfig
availability_config timeout = record {
  initial_delay = 1 * second;
  max_delay = 5 * second;
  factor = 15;
  jitter = 1;
  timeout = pos_part timeout;
  operator_delay = 0;
}

abbrev pub grant_config : Duration → WaitConfig
grant_config timeout = record {
  initial_delay = 100 * millisecond;
  max_delay = 1 * second;
  factor = 0;
  jitter = 0;
  timeout = pos_part timeout;
  operator_delay = 0;
}

abbrev pub acquire_options : Options
acquire_options = record no_options { ttl = pos (10 * minute) }

-- A duration that an object holds only if it is positive.
abbrev pub positive : Duration → Option Duration
positive d = if ltb_ℤ (pos 0) d then some d else none

module _ {W : Type 0} (h : Host W) where
  -- `fmt.Sprintf("%s-%s-%d", name, holder, time.Now().UnixNano())`
  abbrev pub permit_id : String → String → Time → String
  permit_id name holder t =
      str_append (str_append (str_append (str_append name "-") holder) "-") (h.nano_text t)

  -- The permit that `Acquire` creates.
  abbrev pub new_permit : Semaphore → String → String → String → Duration → Permit
  new_permit s id name holder ttl = record {
    meta =
        new_meta h id (("semaphore", name) ∷ [])
          ((record { kind = "Semaphore"; name = s.meta.name; uid = s.meta.uid }) ∷ []);
    spec = record { semaphore = name; holder = holder; ttl = positive ttl };
    status = record { phase = PermitPhase.unset; acquired_at = none; expires_at = none };
  }

  -- The first wait, if no permit is available and the call may wait.
  unfoldable pub await_available : String → Semaphore → Duration → Action W (Result (Unit {0}))
  await_available name s timeout =
      if leb_ℤ s.status.available (pos 0) && ltb_ℤ (pos 0) timeout
      then (do
        waited ←
            wait_for_condition h h.client.semaphores (key h name) has_permits
              (some (availability_config timeout))
        return (elim waited [
          | err e ↦ err (wrap "timeout waiting for semaphore %s" e)
          | ok _ ↦ ok tt
        ]))
      else return (ok tt)

  -- The second wait, if the call may wait; the permit is deleted when it fails.
  unfoldable pub await_grant : String → Duration → Action W (Result (Unit {0}))
  await_grant id timeout =
      if ltb_ℤ (pos 0) timeout
      then (do
        granted ←
            wait_for_condition h h.client.permits (key h id) granted_permit
              (some (grant_config timeout))
        elim granted [
          | ok _ ↦ return (ok tt)
          | err e ↦ do
            gone ← h.client.permits.delete (key h id)
            return (elim gone [
              | err x ↦ err (wrap "failed to wait for permit grant and failed to cleanup permit" e)
              | ok _ ↦ err e
            ])
        ])
      else return (ok tt)

  -- `Acquire` from the creation of the permit.
  unfoldable pub create_permit : String → String → Semaphore → Options → Action W (Result Held)
  create_permit name holder s options = do
    t ← now h.client
    let id = permit_id name holder t
    made ← h.client.permits.create (new_permit s id name holder options.ttl)
    elim made [
      | err e ↦ return (err (wrap "failed to create permit" e))
      | ok _ ↦ do
        granted ← await_grant id options.timeout
        return
            (elim granted [ err e ↦ err e | ok _ ↦ ok (record { name = name; holder = holder }) ])
    ]

  unfoldable pub acquire : String → List Setter → Action W (Result Held)
  acquire name opts = do
    let options = apply opts acquire_options
    holder ← resolve_holder h options.holder
    found ← h.client.semaphores.get (key h name)
    elim found [
      | err e ↦ return (err (wrap "failed to get semaphore %s" e))
      | ok s ↦ do
        available ← await_available name s options.timeout
        elim available [ err e ↦ return (err e) | ok _ ↦ create_permit name holder s options ]
    ]

  -- `With`: the error of the deferred `Release` is dropped.
  pub with_permit :
      String → Action W (Result (Unit {0})) → List Setter → Action W (Result (Unit {0}))
  with_permit name fn opts = do
    acquired ← acquire name opts
    elim acquired [
      | err e ↦ return (err e)
      | ok p ↦ do done ← fn; _ ← release_permit h p; return done
    ]

  pub list : Action W (Result (List Semaphore))
  list = do
    found ← h.client.semaphores.list h.namespace []
    return (elim found [ err e ↦ err (wrap "failed to list semaphores" e) | ok ss ↦ ok ss ])

  pub get : String → Action W (Result Semaphore)
  get name = do
    found ← h.client.semaphores.get (key h name)
    return (elim found [ err e ↦ err (wrap "failed to get semaphore %s" e) | ok s ↦ ok s ])

  abbrev pub new_semaphore : String → ℤ → Duration → Semaphore
  new_semaphore name permits ttl = record {
    meta = new_meta h name [] [];
    spec = record { permits = permits; ttl = positive ttl };
    status = record { in_use = pos 0; available = pos 0; phase = SemaphorePhase.unset };
  }

  unfoldable pub create : String → ℤ → List Setter → Action W (Result (Unit {0}))
  create name permits opts =
      if leb_ℤ permits (pos 0)
      then return (err (errorf "permits must be positive, got %d"))
      else (do
        made ← h.client.semaphores.create (new_semaphore name permits (apply opts no_options).ttl)
        return (elim made [ err e ↦ err (wrap "failed to create semaphore %s" e) | ok _ ↦ ok tt ]))

  pub delete : String → Action W (Result (Unit {0}))
  delete name = do
    gone ← h.client.semaphores.delete (key h name)
    return (elim gone [
      | err e ↦ if is_not_found e then ok tt else err (wrap "failed to delete semaphore %s" e)
      | ok _ ↦ ok tt
    ])

  pub update : Semaphore → Action W (Result (Unit {0}))
  update s = do
    done ← h.client.semaphores.update s
    return (elim done [ err e ↦ err (wrap "failed to update semaphore %s" e) | ok _ ↦ ok tt ])
