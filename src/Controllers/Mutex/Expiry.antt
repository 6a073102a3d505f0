-- ===== src/Controllers/Mutex/Expiry.antt =====
-- What a `Reconcile` of controllers/mutex_controller.go does to the status of a mutex.
use konductor.Prelude.{Bool-cases, inl, inr, ◌↔◌, ◌≡◌, ◌⊎◌, true, false, is_blank, arith}
use konductor.Api.Meta.{Time}
use konductor.Api.Locks.{MutexStatus, is_locked, is_unlocked}
use konductor.Api.Schema.{mutex_status_valid}
use konductor.Controllers.Mutex.{is_expired, refresh}

-- A status that a process holds: it names a holder, and its TTL is not over.
pub record IsHeld (t : Time) (s : MutexStatus) : Type 0 where
  pub named : is_blank s.holder ≡ false
  pub in_term : is_expired s.expires_at t ≡ false

-- The reconciler leaves a lock alone that is held and whose TTL is not over.
pub refresh_held : (t : Time) (s : MutexStatus) → IsHeld t s → refresh t s ≡ (s, false)
unfolding refresh
refresh_held t s h = ground arith

-- What it stores, if it stores anything, is unlocked.
pub refresh_unlocks :
    (t : Time) (s : MutexStatus) → (refresh t s).1 ≡ true → is_locked (refresh t s).0.phase ≡ false
unfolding refresh
refresh_unlocks t s h = ground arith

-- It takes a lock away from its holder exactly when the TTL is over.
refresh_takes_iff :
    (t : Time) (s : MutexStatus)
    → is_blank s.holder ≡ false
    → (is_blank (refresh t s).0.holder ≡ true) ↔ (is_expired s.expires_at t ≡ true)
unfolding refresh
refresh_takes_iff t s h = elim (Bool-cases (is_expired s.expires_at t)) [
  | inl over ↦ rw over (ground arith)
  | inr runs ↦ rw (runs, h) (ground arith)
]

-- After a pass a mutex that names no holder is unlocked, and a second pass at the same time changes
-- nothing.
refresh_settled :
    (t : Time) (s : MutexStatus)
    → ((is_blank (refresh t s).0.holder ≡ false) ⊎ (is_unlocked (refresh t s).0.phase ≡ true))
      × (refresh t (refresh t s).0 ≡ ((refresh t s).0, false))
unfolding refresh
refresh_settled t s = ground arith

-- What the reconciler stores has a phase of the CRD's.
pub refresh_valid :
    (t : Time) (s : MutexStatus)
    → (refresh t s).1 ≡ true
    → mutex_status_valid (refresh t s).0 ≡ true
unfolding refresh
refresh_valid t s e = ground arith
