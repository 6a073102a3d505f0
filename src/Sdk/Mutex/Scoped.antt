-- ===== src/Sdk/Mutex/Scoped.antt =====
-- That `With` of sdk/go/mutex/mutex.go runs its function under the lock, and releases it.
use konductor.Prelude.{
  ◌≡◌, refl, inl, inr, ◌∙◌, ap, ◌*◌, ◌≤◌, true, false, String, str_eq, eq_iff, is_blank, Option,
  none, some, List, Action, arith,
}
use konductor.Api.Meta.{ObjectKey, second}
use konductor.Api.Errors.{Result, ok, Result-cases}
use konductor.Api.Locks.{Mutex, MutexPhase, is_locked}
use konductor.Client.Server.Availability.{update_answered}
use konductor.Sdk.Host.{Host, key, resolve_holder}
use konductor.Sdk.Options.{Setter, apply, no_options}
use konductor.Sdk.Wait.Backoff.{max_backoff_steps}
use konductor.Sdk.Wait.Progress.{default-IsTimed, Undisturbed, retry_at_once}
use konductor.Sdk.Mutex.{Handle, release, lock_config, unlock_once, unlock_handle, lock, with_lock}
use konductor.Sdk.Mutex.Progress.{LockedBy, lock_free}

-- The mutex that the server holds under a key is free, and names no holder.
abbrev pub IsFree : {W : Type 0} → (W → ObjectKey → Option Mutex) → W → ObjectKey → Type 0
IsFree stored w k =
    (o : Mutex) × (stored w k ≡ some o)
    × (is_locked o.status.phase ≡ false)
    × (o.status.holder ≡ "")

release_held :
    (holder : String) (m : Mutex)
    → m.status.holder ≡ holder
    → (m' : Mutex) × (release holder m ≡ ok m')
      × (m'.meta ≡ m.meta)
      × (is_locked m'.status.phase ≡ false)
      × (m'.status.holder ≡ "")
unfolding release
release_held holder m mine =
    let same : str_eq m.status.holder holder ≡ true =
      ground (arith, eq_iff m.status.holder holder) in
    (
      record m {
        status = record {
          phase = MutexPhase.unlocked;
          holder = "";
          locked_at = none;
          expires_at = none;
        };
      },
      rw (same, release) refl,
      refl,
      refl,
      refl,
    )

module _ {W : Type 0} (h : Host W) (stored : W → ObjectKey → Option Mutex)
    (calm : Undisturbed h h.client.mutexes stored) where
  unlock_once_held :
      (l : Handle) (w : W)
      → LockedBy stored w (key h l.name) l.holder
      → (w' : W) × (unlock_once h l w ≡ (ok tt, w')) × IsFree stored w' (key h l.name)
  unfolding unlock_once
  unlock_once_held l w (m, held, locked, mine) =
      let k = key h l.name in
      let (m', released, same, free, nobody) = release_held l.holder m mine in
      let (w', sent, (o, is_now, status)) =
        update_answered h.client.mutexes stored calm.serves calm.answers k m m' w held same in
      (
        w',
        let read = calm.answers.finds k w m held in ground arith,
        (o, is_now, ap (λ s. is_locked s.phase) status ∙ free, ap (λ s. s.holder) status ∙ nobody),
      )

  -- Where nothing else happens meanwhile, `Unlock` by the holder frees the mutex.
  unlock_held :
      (l : Handle) (w : W)
      → is_blank l.holder ≡ false
      → LockedBy stored w (key h l.name) l.holder
      → (w' : W) × (unlock_handle h l w ≡ (ok tt, w')) × IsFree stored w' (key h l.name)
  unfolding unlock_handle
  unlock_held l w named locked =
      let (w', once, free) = unlock_once_held l w locked in
      let retried =
        retry_at_once h h.client.mutexes stored calm (unlock_once h l) none w w' default-IsTimed
          once in
      (w', ground arith, free)

  with_lock_runs :
      (name holder : String) (fn : Action W (Result (Unit {0}))) (opts : List Setter) (w u v : W)
      → lock h name opts w ≡ (ok (record { name = name; holder = holder }), u)
      → unlock_handle h (record { name = name; holder = holder }) (fn u).1 ≡ (ok tt, v)
      → with_lock h name fn opts w ≡ ((fn u).0, v)
  unfolding with_lock
  with_lock_runs name holder fn opts w u v locked unlocked = elim (Result-cases (fn u).0) [
    | inl (e, failed) ↦ ground arith
    | inr (_, done) ↦ ground arith
  ]

  -- Where nothing else happens meanwhile, with a timeout of at most a million times 5 seconds and a
  -- named holder, and if the function leaves the mutex alone, `With` of a mutex that nobody holds
  -- takes it, runs the function in a world where the server holds the mutex as locked by the holder
  -- of the call, returns what the function returned, and leaves the mutex free.
  pub with_lock_uncontended :
      (name : String) (fn : Action W (Result (Unit {0}))) (opts : List Setter) (m : Mutex) (w : W)
      → is_blank name ≡ false
      → is_blank (resolve_holder h (apply opts no_options).holder w).0 ≡ false
      → (lock_config (apply opts no_options).timeout).timeout ≤ max_backoff_steps * (5 * second)
      → stored w (key h name) ≡ some m
      → is_locked m.status.phase ≡ false
      → ((u : W) → stored (fn u).1 (key h name) ≡ stored u (key h name))
      → (u : W) × LockedBy stored u
          (key h name)
          (resolve_holder h (apply opts no_options).holder w).0
        × ((v : W) × (with_lock h name fn opts w ≡ ((fn u).0, v)) × IsFree stored v (key h name))
  with_lock_uncontended name fn opts m w named known limit held free aside =
      let holder = (resolve_holder h (apply opts no_options).holder w).0 in
      let (u, locked, (o, there, taken, mine)) =
        lock_free h stored calm name opts m w named limit held free in
      let (v, unlocked, freed) =
        unlock_held (record { name = name; holder = holder }) (fn u).1 known
          (o, aside u ∙ there, taken, mine) in
      (
        u,
        (o, there, taken, mine),
        (v, with_lock_runs name holder fn opts w u v locked unlocked, freed),
      )
