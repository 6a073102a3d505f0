-- ===== src/Sdk/Schema.antt =====
-- What the SDK sends against the schemas of the CRDs (api/v1).
use konductor.Prelude.{◌≡◌, ℤ, pos, leb_ℤ, true, false, is_blank, String, some, arith}
use konductor.Api.Meta.{Time, Duration}
use konductor.Api.Locks.{Mutex}
use konductor.Api.Counters.{Semaphore, Barrier, WaitGroup}
use konductor.Api.Schema.{
  mutex_status_valid, wait_group_status_valid, permit_spec_valid, arrival_spec_valid,
  lease_request_spec_valid,
}
use konductor.Controllers.Mutex.Expiry
use konductor.Controllers.WaitGroup.{refresh, phase_of}
use konductor.Sdk.Host.{Host, resolve_holder}
use konductor.Sdk.Semaphore.{new_permit}
use konductor.Sdk.Barrier.{new_arrival}
use konductor.Sdk.Lease.{new_request}
use konductor.Sdk.Mutex.{claim, release}
use konductor.Sdk.WaitGroup.{advance, count}
use konductor.Sdk.Mutex.Exclusion as Locks
use konductor.Sdk.WaitGroup.Counting as Counts

resolve_holder_named :
    {W : Type 0} (h : Host W) (holder : String) (w : W)
    → ((t : Time) → is_blank (h.sdk_name t) ≡ false)
    → is_blank (resolve_holder h holder w).0 ≡ false
unfolding resolve_holder
resolve_holder_named h holder w named = ground (arith, named (h.client.clock w))

-- The permit, the arrival and the lease request that `Acquire` and `Arrive` create satisfy their
-- schemas, up to the upper limits on lengths, whatever holder and priority are given, if the name is
-- not empty and neither is the name that the SDK makes up for a host without one.
pub requests_valid :
    {W : Type 0} (h : Host W) (w : W) (s : Semaphore) (b : Barrier) (id name holder : String)
    (ttl : Duration) (priority : ℤ)
    → is_blank name ≡ false
    → ((t : Time) → is_blank (h.sdk_name t) ≡ false)
    → let resolved = (resolve_holder h holder w).0 in
      (permit_spec_valid (new_permit h s id name resolved ttl).spec ≡ true)
      × (arrival_spec_valid (new_arrival h b name resolved).spec ≡ true)
      × (lease_request_spec_valid (new_request h name resolved priority).spec ≡ true)
requests_valid h w s b id name holder ttl priority has_name named =
    let known = resolve_holder_named h holder w named in (ground arith, ground arith, ground arith)

-- Every status of a wait group that an `Add` or a Reconcile sends satisfies the schema, if the counter
-- that it has read is not negative.
pub wait_group_updates_valid :
    (a : Counts.Intent) (o m : WaitGroup)
    → leb_ℤ (pos 0) o.status.counter ≡ true
    → Counts.plan a o ≡ some m
    → wait_group_status_valid m.status ≡ true
unfolding Counts.plan advance count refresh phase_of
wait_group_updates_valid (Counts.add delta) o m read e = ground arith
wait_group_updates_valid Counts.reconcile o m read e = ground arith

-- Every status of a mutex that a Lock, an Unlock or a Reconcile sends has a phase of the CRD's.
mutex_updates_valid :
    (a : Locks.Intent) (o m : Mutex) → Locks.plan a o ≡ some m → mutex_status_valid m.status ≡ true
unfolding Locks.plan claim release
mutex_updates_valid (Locks.lock t holder) o m e = ground arith
mutex_updates_valid (Locks.unlock holder) o m e = ground arith
mutex_updates_valid (Locks.reconcile t) o m e = ground (arith, Expiry.refresh_valid t o.status)
