-- ===== src/Controllers/RwMutex.antt =====
-- controllers/rwmutex_controller.go
pub mod Consistency
use konductor.Prelude.{
  Bool, true, false, not, ◌&&◌, ◌==◌, Option, none, some, [], length, Action, return, ◌>>=◌,
  is_blank, if◌then◌else◌,
}
use konductor.Api.Meta.{Time, ObjectKey, after, sub}
use konductor.Api.Errors.{ok, err}
use konductor.Api.Locks.{RwMutex, RwMutexPhase, RwMutexStatus, same_rw_phase}
use konductor.Client.{Client, now}
use konductor.Controllers.Outcome.{Reconciled, stop, fail, requeue_in, not_found_or}
use konductor.Controllers.Mutex.{is_expired}

unfoldable pub expire : Time → RwMutexStatus → RwMutexStatus × Bool
expire t s =
    if is_expired s.expires_at t
    then (
      record s {
        phase = RwMutexPhase.unlocked;
        write_holder = "";
        read_holders = [];
        locked_at = none;
        expires_at = none;
      },
      true,
    )
    else (s, false)

-- The three branches over the holders. One that finds the phase as it should be leaves `updated`.
unfoldable pub set_phase : RwMutexPhase → RwMutexStatus × Bool → RwMutexStatus × Bool
set_phase p (s, updated) =
    if same_rw_phase s.phase p then (s, updated) else (record s { phase = p }, true)

unfoldable pub match_phase : RwMutexStatus × Bool → RwMutexStatus × Bool
unfolding set_phase
match_phase (s, updated) =
    if is_blank s.write_holder && length s.read_holders == 0
    then set_phase RwMutexPhase.unlocked (s, updated)
    else if not (is_blank s.write_holder)
    then set_phase RwMutexPhase.write_locked (s, updated)
    else set_phase RwMutexPhase.read_locked (s, updated)

unfoldable pub refresh : Time → RwMutexStatus → RwMutexStatus × Bool
unfolding expire match_phase
refresh t s = match_phase (expire t s)

module _ {W : Type 0} (c : Client W) where
  pub requeue_until_expiry : Time → Option Time → Action W Reconciled
  requeue_until_expiry t none = return stop
  requeue_until_expiry t (some e) =
      if after e t then (do u ← now c; return (requeue_in (sub e u))) else return stop

  pub settle : RwMutex → Time → Action W Reconciled
  unfolding refresh requeue_until_expiry
  settle rw t =
      let (s, updated) = refresh t rw.status in
      if updated
      then (do
        written ← c.rw_mutexes.status_update (record rw { status = s })
        elim written [ err e ↦ return (fail e) | ok _ ↦ requeue_until_expiry t s.expires_at ])
      else requeue_until_expiry t s.expires_at

  unfoldable pub reconcile : ObjectKey → Action W Reconciled
  unfolding settle
  reconcile req = do
    found ← c.rw_mutexes.get req
    elim found [ err e ↦ return (not_found_or e) | ok rw ↦ do t ← now c; settle rw t ]
