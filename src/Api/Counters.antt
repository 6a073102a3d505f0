-- ===== src/Api/Counters.antt =====
-- api/v1/semaphore_types.go, permit_types.go, barrier_types.go, arrival_types.go and
-- waitgroup_types.go. An int32 is a signed integer; the code that computes one wraps it.
use konductor.Prelude.{ℤ, Bool, true, false, String, List, Option}
use konductor.Api.Meta.{Time, Duration, Object}

pub record SemaphoreSpec : Type 0 where
  pub permits : ℤ
  pub ttl : Option Duration

pub data SemaphorePhase : Type 0 where
  unset ready full unavailable : SemaphorePhase

pub record SemaphoreStatus : Type 0 where
  pub in_use : ℤ
  pub available : ℤ
  pub phase : SemaphorePhase

abbrev pub Semaphore : Type 0
Semaphore = Object SemaphoreSpec SemaphoreStatus

abbrev pub is_unset_semaphore : SemaphorePhase → Bool
is_unset_semaphore SemaphorePhase.unset = true
is_unset_semaphore _ = false

pub record PermitSpec : Type 0 where
  pub semaphore : String
  pub holder : String
  pub ttl : Option Duration

pub data PermitPhase : Type 0 where
  unset granted denied expired : PermitPhase

pub record PermitStatus : Type 0 where
  pub phase : PermitPhase
  pub acquired_at : Option Time
  pub expires_at : Option Time

abbrev pub Permit : Type 0
Permit = Object PermitSpec PermitStatus

abbrev pub is_granted : PermitPhase → Bool
is_granted PermitPhase.granted = true
is_granted _ = false

pub record BarrierSpec : Type 0 where
  pub expected : ℤ
  pub timeout : Option Duration
  pub quorum : Option ℤ

pub data BarrierPhase : Type 0 where
  unset waiting opened failed : BarrierPhase

pub record BarrierStatus : Type 0 where
  pub arrived : ℤ
  pub phase : BarrierPhase
  pub arrivals : List String
  pub opened_at : Option Time

abbrev pub Barrier : Type 0
Barrier = Object BarrierSpec BarrierStatus

abbrev pub same_barrier_phase : BarrierPhase → BarrierPhase → Bool
same_barrier_phase BarrierPhase.unset BarrierPhase.unset = true
same_barrier_phase BarrierPhase.waiting BarrierPhase.waiting = true
same_barrier_phase BarrierPhase.opened BarrierPhase.opened = true
same_barrier_phase BarrierPhase.failed BarrierPhase.failed = true
same_barrier_phase _ _ = false

pub record ArrivalSpec : Type 0 where
  pub barrier : String
  pub holder : String

pub data ArrivalPhase : Type 0 where
  unset recorded : ArrivalPhase

pub record ArrivalStatus : Type 0 where
  pub phase : ArrivalPhase
  pub arrived_at : Option Time

abbrev pub Arrival : Type 0
Arrival = Object ArrivalSpec ArrivalStatus

pub record WaitGroupSpec : Type 0 where
  pub ttl : Option Duration

pub data WaitGroupPhase : Type 0 where
  unset waiting done : WaitGroupPhase

pub record WaitGroupStatus : Type 0 where
  pub counter : ℤ
  pub phase : WaitGroupPhase

abbrev pub WaitGroup : Type 0
WaitGroup = Object WaitGroupSpec WaitGroupStatus

abbrev pub same_group_phase : WaitGroupPhase → WaitGroupPhase → Bool
same_group_phase WaitGroupPhase.unset WaitGroupPhase.unset = true
same_group_phase WaitGroupPhase.waiting WaitGroupPhase.waiting = true
same_group_phase WaitGroupPhase.done WaitGroupPhase.done = true
same_group_phase _ _ = false
