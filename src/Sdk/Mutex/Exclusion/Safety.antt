-- ===== src/Sdk/Mutex/Exclusion/Safety.antt =====
-- Who holds a mutex, and until when, however the calls of the processes interleave.
use konductor.Prelude.{
  ℕ, ◌≡◌, refl, sym, ◌∙◌, subst, Bool, true, false, not, String, str_eq, is_blank, Option, none,
  some, arith,
}
use konductor.Api.Meta.{Time, ObjectKey}
use konductor.Api.Errors.{ok}
use konductor.Api.Locks.{Mutex, MutexSpec, MutexStatus, is_locked}
use konductor.Client.Server.{Resource, Serves}
use konductor.Controllers.Mutex.{is_expired}
use konductor.Controllers.Mutex.Expiry
use konductor.Sdk.Mutex.{claim, release}
use konductor.Client.Race.{System, Reach, Inv}
use konductor.Client.Race.Atomic.{Change, keeps, becomes, Reach-keeps, accepted_current}
use konductor.Sdk.Mutex.Exclusion.{Intent, lock, unlock, reconcile, plan, plan_meta}

-- A status by which somebody holds the lock.
pub record IsHeld (s : MutexStatus) : Type 0 where
  pub locked : is_locked s.phase ≡ true
  pub named : is_blank s.holder ≡ false

-- The intents that leave a held lock to its holder: to lock it, to unlock it for another holder,
-- and to reconcile it before its TTL is over.
unfoldable pub leaves : MutexStatus → Intent → Bool
leaves s (lock t holder) = true
leaves s (unlock holder) = not (str_eq s.holder holder)
leaves s (reconcile t) = not (is_expired s.expires_at t)

-- None of these makes an update out of a mutex that is held.
plan_held : (o : Mutex) (a : Intent) → IsHeld o.status → leaves o.status a ≡ true → plan a o ≡ none
unfolding plan leaves claim release
plan_held o (lock t holder) h l = ground arith
plan_held o (unlock holder) h l = ground arith
plan_held o (reconcile t) h l =
    ground
      (arith, Expiry.refresh_held t o.status (record { named = h.named; in_term = ground arith }))

claim_held :
    (t : Time) (holder : String) (o m : Mutex) → IsHeld o.status → claim t holder o ≡ ok m → ⊥
unfolding claim
claim_held t holder o m h e = ground arith

claim_takes :
    (t : Time) (holder : String) (m m' : Mutex)
    → claim t holder m ≡ ok m'
    → (is_locked m'.status.phase ≡ true) × (m'.status.holder ≡ holder)
unfolding claim
claim_takes t holder m m' e = ground arith

planned_lock :
    (t : Time) (holder : String) (m m' : Mutex)
    → claim t holder m ≡ ok m'
    → plan (lock t holder) m ≡ some m'
unfolding plan
planned_lock t holder m m' e = rw (e, plan)

release_checks :
    (holder : String) (m m' : Mutex)
    → release holder m ≡ ok m'
    → (str_eq m.status.holder holder ≡ true)
      × ((is_locked m'.status.phase ≡ false) × (m'.status.holder ≡ ""))
unfolding release
release_checks holder m m' e = ground arith

planned_unlock :
    (holder : String) (m m' : Mutex) → release holder m ≡ ok m' → plan (unlock holder) m ≡ some m'
unfolding plan
planned_unlock holder m m' e = rw (e, plan)

module _ {W : Type 0} (r : Resource W MutexSpec MutexStatus) (stored : W → ObjectKey → Option Mutex)
    (k : ObjectKey) (serves : Serves r stored) where
  Change-held :
      (st : MutexStatus) (o o' : Mutex)
      → IsHeld st
      → o.status ≡ st
      → Change plan (leaves st) o o'
      → o'.status ≡ st
  Change-held st o o' h e (keeps same) = same ∙ e
  Change-held st o o' h e (becomes a m can planned made) =
      let none_planned =
        plan_held o a (subst IsHeld (sym e) h) (subst (λ x. leaves x a ≡ true) (sym e) can) in
      absurd (cc)

  -- A lock that is held stays with its holder, with its TTL, through any steps of any processes
  -- that neither unlock it for that holder nor reconcile it after its TTL.
  pub held_until_released :
      {s : System W MutexSpec MutexStatus} {o : Mutex} {t : System W MutexSpec MutexStatus}
      → Inv stored k s o
      → IsHeld o.status
      → Reach plan r k (leaves o.status) s t
      → (o' : Mutex) × (stored t.world k ≡ some o') × (o'.status ≡ o.status)
  held_until_released {o = o} v h past =
      let (o', v', e) =
        Reach-keeps plan plan_meta r stored k serves (leaves o.status) (λ m. m.status ≡ o.status)
          (λ m m' p c. Change-held o.status m m' h p c) v refl past in
      (o', v'.held, e)

  -- A `Lock` or `TryLock` whose update the server accepts finds the mutex free at that moment,
  -- whatever has happened since it was read, and takes it for its holder.
  lock_takes_free :
      (s : System W MutexSpec MutexStatus) (o : Mutex) (i : ℕ) (t : Time) (holder : String)
      (m m' : Mutex) (w' : W)
      → Inv stored k s o
      → s.seen i ≡ some m
      → claim t holder m ≡ ok m'
      → r.status_update m' s.world ≡ (ok tt, w')
      → (¬ IsHeld o.status)
        × ((o' : Mutex) × (stored w' k ≡ some o')
            × ((is_locked o'.status.phase ≡ true) × (o'.status.holder ≡ holder)))
  lock_takes_free s o i t holder m m' w' v saw claimed e =
      let (current, made) =
        accepted_current plan plan_meta r stored k serves (λ _. true) s o i (lock t holder) m m' w'
          v saw (planned_lock t holder m m' claimed) e in
      (
        λ h. claim_held t holder o m' h (subst (λ x. claim t holder x ≡ ok m') current claimed),
        (_, made.is_now, claim_takes t holder m m' claimed),
      )

  -- An `Unlock` whose update the server accepts was sent for the holder of that moment.
  unlock_frees_own :
      (s : System W MutexSpec MutexStatus) (o : Mutex) (i : ℕ) (holder : String) (m m' : Mutex)
      (w' : W)
      → Inv stored k s o
      → s.seen i ≡ some m
      → release holder m ≡ ok m'
      → r.status_update m' s.world ≡ (ok tt, w')
      → (str_eq o.status.holder holder ≡ true)
        × ((o' : Mutex) × (stored w' k ≡ some o')
            × ((is_locked o'.status.phase ≡ false) × (o'.status.holder ≡ "")))
  unlock_frees_own s o i holder m m' w' v saw released e =
      let (current, made) =
        accepted_current plan plan_meta r stored k serves (λ _. true) s o i (unlock holder) m m' w'
          v saw (planned_unlock holder m m' released) e in
      (
        subst (λ x. str_eq x.status.holder holder ≡ true) current
            (release_checks holder m m' released).0,
        (_, made.is_now, (release_checks holder m m' released).1),
      )
