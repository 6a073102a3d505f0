-- ===== src/Controllers/Once.antt =====
-- controllers/once_controller.go. The `RequeueAfter` that stands beside an error is kept, though
-- the framework reads it only where there is none.
pub mod Execution
use konductor.Prelude.{pos, Bool, false, Option, none, some, Action, return, ◌>>=◌, if◌then◌else◌}
use konductor.Api.Meta.{Time, Duration, ObjectKey, ObjectMeta, add, after, second, key_of}
use konductor.Api.Errors.{Error, Result, ok, err}
use konductor.Api.Locks.{Once, OncePhase, is_unset_once, is_executed}
use konductor.Client.{Client, now}
use konductor.Controllers.Outcome.{Reconciled, stop, not_found_or}

pub fail_soon : Error → Reconciled
fail_soon e = record { requeue = false; requeue_after = pos second; error = some e }

abbrev pub after_write : Result (Unit {0}) → Reconciled
unfolding fail_soon
after_write (err e) = fail_soon e
after_write (ok _) = stop

unfoldable pub is_outlived : Time → ObjectMeta → Option Duration → Bool
is_outlived t m none = false
is_outlived t m (some ttl) = after t (add m.creation_timestamp ttl)

abbrev pub initialized : Once → Once
initialized once = record once {
  status = record once.status { phase = OncePhase.pending; executed = false };
}

abbrev pub corrected : Once → Once
corrected once = record once { status = record once.status { phase = OncePhase.executed } }

-- What a `Reconcile` does with the record that it has read.
pub data Revision : Type 0 where
  keep remove : Revision
  save : Once → Revision

abbrev pub phase_revision : Once → Revision
phase_revision once =
    if once.status.executed
    then if is_executed once.status.phase then keep else save (corrected once)
    else keep

unfoldable pub revise : Time → Once → Revision
unfolding is_outlived
revise t once =
    if is_unset_once once.status.phase
    then save (initialized once)
    else if is_outlived t once.meta once.spec.ttl
    then remove
    else phase_revision once

module _ {W : Type 0} (c : Client W) where
  unfoldable pub settle : Once → Action W Reconciled
  unfolding fail_soon revise
  settle once = do
    t ← now c
    elim (revise t once) [
      | keep ↦ return stop
      | save changed ↦ do written ← c.onces.status_update changed; return (after_write written)
      | remove ↦ do removed ← c.onces.delete (key_of once.meta); return (after_write removed)
    ]

  unfoldable pub reconcile : ObjectKey → Action W Reconciled
  unfolding settle
  reconcile req = do
    found ← c.onces.get req
    elim found [ err e ↦ return (not_found_or e) | ok once ↦ settle once ]
