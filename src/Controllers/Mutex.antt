-- ===== src/Controllers/Mutex.antt =====
-- controllers/mutex_controller.go
pub mod Expiry
use konductor.Prelude.{
  Bool, true, false, not, ◌&&◌, Option, none, some, Action, return, ◌>>=◌, is_blank, if◌then◌else◌,
}
use konductor.Api.Meta.{Time, ObjectKey, before, after, sub}
use konductor.Api.Errors.{ok, err, is_conflict}
use konductor.Api.Locks.{Mutex, MutexPhase, MutexStatus, is_unlocked}
use konductor.Client.{Client, now}
use konductor.Controllers.Outcome.{Reconciled, stop, fail, requeue_in, requeue_now, not_found_or}

-- Whether the time of an optional `ExpiresAt` has come.
abbrev pub is_expired : Option Time → Time → Bool
is_expired none t = false
is_expired (some e) t = before e t

-- The status after the two checks, and whether either changed it.
pub expire : Time → MutexStatus → MutexStatus × Bool
expire t s =
    if is_expired s.expires_at t
    then (
      record s { phase = MutexPhase.unlocked; holder = ""; locked_at = none; expires_at = none },
      true,
    )
    else (s, false)

pub release_unheld : MutexStatus × Bool → MutexStatus × Bool
release_unheld (s, updated) =
    if is_blank s.holder && not (is_unlocked s.phase)
    then (record s { phase = MutexPhase.unlocked }, true)
    else (s, updated)

pub refresh : Time → MutexStatus → MutexStatus × Bool
unfolding expire release_unheld
refresh t s = release_unheld (expire t s)

module _ {W : Type 0} (c : Client W) where
  -- `ctrl.Result` after the update: the time that is left of the TTL.
  pub requeue_until_expiry : Time → Option Time → Action W Reconciled
  requeue_until_expiry t none = return stop
  requeue_until_expiry t (some e) =
      if after e t then (do u ← now c; return (requeue_in (sub e u))) else return stop

  pub settle : Mutex → Time → Action W Reconciled
  unfolding refresh requeue_until_expiry
  settle mutex t =
      let (s, updated) = refresh t mutex.status in
      if updated
      then (do
        written ← c.mutexes.status_update (record mutex { status = s })
        elim written [
          | err e ↦ return (if is_conflict e then requeue_now else fail e)
          | ok _ ↦ requeue_until_expiry t s.expires_at
        ])
      else requeue_until_expiry t s.expires_at

  unfoldable pub reconcile : ObjectKey → Action W Reconciled
  unfolding settle
  reconcile req = do
    found ← c.mutexes.get req
    elim found [ err e ↦ return (not_found_or e) | ok mutex ↦ do t ← now c; settle mutex t ]
