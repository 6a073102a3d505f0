-- ===== src/Sdk/Mutex/Progress.antt =====
-- That `Lock` of sdk/go/mutex/mutex.go takes a mutex that nobody holds.
use konductor.Prelude.{
  ◌≡◌, refl, ◌∙◌, ap, ◌*◌, ◌≤◌, true, false, not, ◌&&◌, String, str_eq, eq_iff, is_blank, Option,
  some, List, arith,
}
use konductor.Api.Meta.{Time, ObjectKey, second}
use konductor.Api.Errors.{ok}
use konductor.Api.Locks.{Mutex, MutexPhase, is_locked}
use konductor.Client.Server.Availability.{update_answered}
use konductor.Sdk.Host.{Host, key, resolve_holder}
use konductor.Sdk.Options.{Setter, apply, no_options}
use konductor.Sdk.Wait.Backoff.{max_backoff_steps}
use konductor.Sdk.Wait.Progress.{Undisturbed, retry_at_once, wait_at_once}
use konductor.Sdk.Mutex.{
  expiry, claim, lock_config, acquire_config, confirm_config, lock_once, confirm, acquire, lock,
}

-- A free mutex can be claimed.
claim_free :
    (t : Time) (holder : String) (m : Mutex)
    → is_locked m.status.phase ≡ false
    → (m' : Mutex) × (claim t holder m ≡ ok m')
      × (m'.meta ≡ m.meta)
      × (is_locked m'.status.phase ≡ true)
      × (m'.status.holder ≡ holder)
unfolding claim
claim_free t holder m free = (
  record m {
    status = record {
      phase = MutexPhase.locked;
      holder = holder;
      locked_at = some t;
      expires_at = expiry t m.spec.ttl m.status.expires_at;
    };
  },
  rw (free, claim) refl,
  refl,
  refl,
  refl,
)

-- The mutex that the server holds under a key is locked by the holder.
abbrev pub LockedBy :
    {W : Type 0} → (W → ObjectKey → Option Mutex) → W → ObjectKey → String → Type 0
LockedBy stored w k holder =
    (o : Mutex) × (stored w k ≡ some o)
    × (is_locked o.status.phase ≡ true)
    × (o.status.holder ≡ holder)

module _ {W : Type 0} (h : Host W) (stored : W → ObjectKey → Option Mutex)
    (calm : Undisturbed h h.client.mutexes stored) where
  pub lock_once_free :
      (name holder : String) (m : Mutex) (w : W)
      → stored w (key h name) ≡ some m
      → is_locked m.status.phase ≡ false
      → (w' : W) × (lock_once h name holder w ≡ (ok tt, w'))
        × LockedBy stored w' (key h name) holder
  unfolding lock_once
  lock_once_free name holder m w held free =
      let k = key h name in
      let (m', claimed, same, locked, mine) = claim_free (h.client.clock w) holder m free in
      let (w', sent, (o, is_now, status)) =
        update_answered h.client.mutexes stored calm.serves calm.answers k m m' w held same in
      (
        w',
        let read = calm.answers.finds k w m held in ground arith,
        (o, is_now, ap (λ s. is_locked s.phase) status ∙ locked, ap (λ s. s.holder) status ∙ mine),
      )

  confirm_locked :
      (name holder : String) (w : W)
      → LockedBy stored w (key h name) holder
      → (w' : W) × (confirm h name holder w ≡ (ok (record { name = name; holder = holder }), w'))
        × LockedBy stored w' (key h name) holder
  unfolding confirm
  confirm_locked name holder w (o, held, locked, mine) =
      let (w', seen, aside) =
        wait_at_once h h.client.mutexes stored calm (key h name)
          (λ m. is_locked m.status.phase && str_eq m.status.holder holder) (some confirm_config) o w
          (record { delays = omega arith; times_out = omega arith; limited = omega arith }) held
          (ground (arith, eq_iff o.status.holder holder)) in
      (w', rw seen refl, (o, aside (key h name) ∙ held, locked, mine))

  acquire_free :
      (name holder : String) (m : Mutex) (w : W)
      → stored w (key h name) ≡ some m
      → is_locked m.status.phase ≡ false
      → (w' : W) × (acquire h name holder w ≡ (ok (record { name = name; holder = holder }), w'))
        × LockedBy stored w' (key h name) holder
  unfolding acquire
  acquire_free name holder m w held free =
      let (u, once, locked) = lock_once_free name holder m w held free in
      let retried =
        retry_at_once h h.client.mutexes stored calm (lock_once h name holder) (some acquire_config)
          w u (record { delays = omega arith; times_out = omega arith; limited = omega arith })
          once in
      let (w', confirmed, still) = confirm_locked name holder u locked in (w', ground arith, still)

  -- Where nothing else happens meanwhile, `Lock` of a mutex that nobody holds takes it: it returns
  -- the handle, and the server holds the mutex as locked by the holder of the call.
  pub lock_free :
      (name : String) (opts : List Setter) (m : Mutex) (w : W)
      → is_blank name ≡ false
      → (lock_config (apply opts no_options).timeout).timeout ≤ max_backoff_steps * (5 * second)
      → stored w (key h name) ≡ some m
      → is_locked m.status.phase ≡ false
      → let holder = (resolve_holder h (apply opts no_options).holder w).0 in
        (w' : W) × (lock h name opts w ≡ (ok (record { name = name; holder = holder }), w'))
        × LockedBy stored w' (key h name) holder
  unfolding lock resolve_holder
  lock_free name opts m w named limit held free =
      let options = apply opts no_options in
      let (u, waited, aside) =
        wait_at_once h h.client.mutexes stored calm (key h name)
          (λ m. not (is_locked m.status.phase)) (some (lock_config options.timeout)) m w
          (record { delays = omega arith; times_out = ground arith; limited = limit }) held
          (ground arith) in
      let (w', acquired, locked) =
        acquire_free name (resolve_holder h options.holder w).0 m u (aside (key h name) ∙ held)
          free in
      (w', ground arith, locked)
