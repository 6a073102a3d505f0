-- ===== src/Operator/Missing.antt =====
-- What every reconciler does when the object of a request cannot be read.
use konductor.Prelude.{◌≡◌, arith}
use konductor.Api.Meta.{ObjectKey}
use konductor.Api.Errors.{Error, err}
use konductor.Client.{Client}
use konductor.Controllers.Outcome.{not_found_or}
use konductor.Controllers.Semaphore
use konductor.Controllers.Barrier
use konductor.Controllers.Lease
use konductor.Controllers.Gate
use konductor.Controllers.Mutex
use konductor.Controllers.RwMutex
use konductor.Controllers.Once
use konductor.Controllers.WaitGroup
use konductor.Operator.{
  Kind, semaphore, barrier, lease, gate, mutex, rw_mutex, once, wait_group, reconcile, read,
}

module _ {W : Type 0} (c : Client W) where
  -- If the read of the object fails, a Reconcile of any kind makes no other call: it ends with no
  -- error and is not asked to run again if the object is gone, and else returns the error.
  reconcile_unread :
      (k : Kind) (req : ObjectKey) (w w' : W) (e : Error)
      → read c k req w ≡ (err e, w')
      → reconcile c k req w ≡ (not_found_or e, w')
  unfolding reconcile read Semaphore.reconcile Barrier.reconcile Lease.reconcile Gate.reconcile
      Mutex.reconcile RwMutex.reconcile Once.reconcile WaitGroup.reconcile
  reconcile_unread semaphore req w w' e h = ground arith
  reconcile_unread barrier req w w' e h = ground arith
  reconcile_unread lease req w w' e h = ground arith
  reconcile_unread gate req w w' e h = ground arith
  reconcile_unread mutex req w w' e h = ground arith
  reconcile_unread rw_mutex req w w' e h = ground arith
  reconcile_unread once req w w' e h = ground arith
  reconcile_unread wait_group req w w' e h = ground arith
