-- ===== src/Client.antt =====
-- The Kubernetes client of controller-runtime, which the program calls and does not implement: one
-- handle for each kind, and the clock of the host. `W` is the world outside the program; every call
-- may change it, also by what other processes do meanwhile.
pub mod Server
pub mod Race
use konductor.Prelude.{ℤ, String, List, Action, ◌≡◌}
use konductor.Api.Meta.{Time, ObjectKey, Object}
use konductor.Api.Errors.{Result}
use konductor.Api.Locks.{MutexSpec, MutexStatus, RwMutexSpec, RwMutexStatus, OnceSpec, OnceStatus}
use konductor.Api.Counters.{
  SemaphoreSpec, SemaphoreStatus, PermitSpec, PermitStatus, BarrierSpec, BarrierStatus, ArrivalSpec,
  ArrivalStatus, WaitGroupSpec, WaitGroupStatus,
}
use konductor.Api.Leases.{LeaseSpec, LeaseStatus, LeaseRequestSpec, LeaseRequestStatus}
use konductor.Api.Gates.{GateSpec, GateStatus}
use Server.{Resource}

pub record Client (W : Type 0) : Type 0 where
  pub clock : W → Time
  pub mutexes : Resource W MutexSpec MutexStatus
  pub rw_mutexes : Resource W RwMutexSpec RwMutexStatus
  pub onces : Resource W OnceSpec OnceStatus
  pub semaphores : Resource W SemaphoreSpec SemaphoreStatus
  pub permits : Resource W PermitSpec PermitStatus
  pub barriers : Resource W BarrierSpec BarrierStatus
  pub arrivals : Resource W ArrivalSpec ArrivalStatus
  pub wait_groups : Resource W WaitGroupSpec WaitGroupStatus
  pub leases : Resource W LeaseSpec LeaseStatus
  pub lease_requests : Resource W LeaseRequestSpec LeaseRequestStatus
  pub gates : Resource W GateSpec GateStatus
  -- `Get` of a `batch/v1` Job, of which the code reads `Status.Succeeded`.
  pub job_succeeded : ObjectKey → Action W (Result ℤ)

-- `time.Now()`: readings with no call in between agree.
abbrev pub now : {W : Type 0} → Client W → Action W Time
now c w = (c.clock w, w)
