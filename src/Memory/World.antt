-- ===== src/Memory/World.antt =====
-- The world of the server in memory: a clock, and one object of each kind at most; and a client
-- and a host over it for the tests and the witnesses.
use konductor.Prelude.{pos, refl, Option, none, [], String}
use konductor.Api.Meta.{Time, ObjectMeta}
use konductor.Api.Errors.{err, not_found}
use konductor.Api.Locks.{
  Mutex, MutexSpec, MutexStatus, RwMutex, RwMutexSpec, RwMutexStatus, Once, OnceSpec, OnceStatus,
}
use konductor.Api.Counters.{
  Semaphore, SemaphoreSpec, SemaphoreStatus, Permit, PermitSpec, PermitStatus, Barrier, BarrierSpec,
  BarrierStatus, Arrival, ArrivalSpec, ArrivalStatus, WaitGroup, WaitGroupSpec, WaitGroupStatus,
}
use konductor.Api.Leases.{
  Lease, LeaseSpec, LeaseStatus, LeaseRequest, LeaseRequestSpec, LeaseRequestStatus,
}
use konductor.Api.Gates.{Gate, GateSpec, GateStatus}
use konductor.Client.{Client}
use konductor.Memory.{Lens, resource}

pub record World : Type 0 where
  pub clock : Time
  pub mutexes : Option Mutex
  pub rw_mutexes : Option RwMutex
  pub onces : Option Once
  pub semaphores : Option Semaphore
  pub permits : Option Permit
  pub barriers : Option Barrier
  pub arrivals : Option Arrival
  pub wait_groups : Option WaitGroup
  pub leases : Option Lease
  pub lease_requests : Option LeaseRequest
  pub gates : Option Gate

abbrev pub empty : World
empty = record {
  clock = pos 0;
  mutexes = none;
  rw_mutexes = none;
  onces = none;
  semaphores = none;
  permits = none;
  barriers = none;
  arrivals = none;
  wait_groups = none;
  leases = none;
  lease_requests = none;
  gates = none;
}

abbrev pub mutexes_lens : Lens World MutexSpec MutexStatus
mutexes_lens = record {
  view = λ w. w.mutexes;
  put = λ c w. record w { mutexes = c };
  view_put = λ c w. refl;
}

abbrev pub rw_mutexes_lens : Lens World RwMutexSpec RwMutexStatus
rw_mutexes_lens = record {
  view = λ w. w.rw_mutexes;
  put = λ c w. record w { rw_mutexes = c };
  view_put = λ c w. refl;
}

abbrev pub onces_lens : Lens World OnceSpec OnceStatus
onces_lens = record {
  view = λ w. w.onces;
  put = λ c w. record w { onces = c };
  view_put = λ c w. refl;
}

abbrev pub semaphores_lens : Lens World SemaphoreSpec SemaphoreStatus
semaphores_lens = record {
  view = λ w. w.semaphores;
  put = λ c w. record w { semaphores = c };
  view_put = λ c w. refl;
}

abbrev pub permits_lens : Lens World PermitSpec PermitStatus
permits_lens = record {
  view = λ w. w.permits;
  put = λ c w. record w { permits = c };
  view_put = λ c w. refl;
}

abbrev pub barriers_lens : Lens World BarrierSpec BarrierStatus
barriers_lens = record {
  view = λ w. w.barriers;
  put = λ c w. record w { barriers = c };
  view_put = λ c w. refl;
}

abbrev pub arrivals_lens : Lens World ArrivalSpec ArrivalStatus
arrivals_lens = record {
  view = λ w. w.arrivals;
  put = λ c w. record w { arrivals = c };
  view_put = λ c w. refl;
}

abbrev pub wait_groups_lens : Lens World WaitGroupSpec WaitGroupStatus
wait_groups_lens = record {
  view = λ w. w.wait_groups;
  put = λ c w. record w { wait_groups = c };
  view_put = λ c w. refl;
}

abbrev pub leases_lens : Lens World LeaseSpec LeaseStatus
leases_lens = record {
  view = λ w. w.leases;
  put = λ c w. record w { leases = c };
  view_put = λ c w. refl;
}

abbrev pub lease_requests_lens : Lens World LeaseRequestSpec LeaseRequestStatus
lease_requests_lens = record {
  view = λ w. w.lease_requests;
  put = λ c w. record w { lease_requests = c };
  view_put = λ c w. refl;
}

abbrev pub gates_lens : Lens World GateSpec GateStatus
gates_lens = record {
  view = λ w. w.gates;
  put = λ c w. record w { gates = c };
  view_put = λ c w. refl;
}

abbrev pub client : Client World
client = record {
  clock = λ w. w.clock;
  mutexes = resource mutexes_lens;
  rw_mutexes = resource rw_mutexes_lens;
  onces = resource onces_lens;
  semaphores = resource semaphores_lens;
  permits = resource permits_lens;
  barriers = resource barriers_lens;
  arrivals = resource arrivals_lens;
  wait_groups = resource wait_groups_lens;
  leases = resource leases_lens;
  lease_requests = resource lease_requests_lens;
  gates = resource gates_lens;
  job_succeeded = λ k w. (err not_found, w);
}

-- Metadata of an object of the default namespace, at its first version.
abbrev pub named : String → ObjectMeta
named name = record {
  namespace = "default";
  name = name;
  uid = "u";
  resource_version = 1;
  creation_timestamp = pos 0;
  labels = [];
  owners = [];
}
