-- ===== src/Controllers/Lease.antt =====
-- controllers/lease_controller.go
pub mod Selection
pub mod Starvation
pub mod Tenure
use konductor.Prelude.{
  ◌*◌, ℤ, pos, negsuc, ltb_ℤ, false, ◌||◌, Option, none, some, List, [], ◌∷◌, Action, return, ◌>>=◌,
  is_blank, is_none, if◌then◌else◌,
}
use konductor.Api.Meta.{Time, Duration, ObjectKey, add, sub, second, minute}
use konductor.Api.Errors.{ok, err, is_conflict}
use konductor.Api.Leases.{
  Lease, LeasePhase, LeaseStatus, LeaseRequest, LeaseRequestPhase, is_available,
}
use konductor.Client.{Client, now}
use konductor.Controllers.Outcome.{Reconciled, fail, requeue_in, requeue_now, not_found_or}
use konductor.Controllers.Mutex.{is_expired}

-- The two checks before the requests are read.
pub expire : Time → LeaseStatus → LeaseStatus
expire t s =
    if is_expired s.expires_at t
    then record s { phase = LeasePhase.expired; holder = ""; acquired_at = none; expires_at = none }
    else s

pub free_unheld : LeaseStatus → LeaseStatus
free_unheld s = if is_blank s.holder then record s { phase = LeasePhase.available } else s

pub refresh : Time → LeaseStatus → LeaseStatus
unfolding expire free_unheld
refresh t s = free_unheld (expire t s)

abbrev pub or_zero : Option ℤ → ℤ
or_zero none = pos 0
or_zero (some p) = p

abbrev pub priority_of : LeaseRequest → ℤ
priority_of r = or_zero r.spec.priority

-- The loop over the requests, from its two variables `bestRequest` and `highestPriority`.
unfoldable pub select : Option LeaseRequest → ℤ → List LeaseRequest → Option LeaseRequest
select best highest [] = best
select best highest (r ∷ rs) =
    let better = is_none best || ltb_ℤ highest (priority_of r) in
    select (if better then some r else best) (if better then priority_of r else highest) rs

abbrev pub best_request : List LeaseRequest → Option LeaseRequest
best_request = select none (negsuc 0)

-- `ExpiresAt` of a new grant: without a positive TTL it stays as it was.
abbrev pub expiry : Time → Option Duration → Option Time → Option Time
expiry t none old = old
expiry t (some ttl) old = if ltb_ℤ (pos 0) ttl then some (add t ttl) else old

unfoldable pub hand_to : Time → LeaseRequest → Lease → Lease
hand_to t r l = record l {
  status = record {
    holder = r.spec.holder;
    phase = LeasePhase.held;
    acquired_at = some t;
    expires_at = expiry t l.spec.ttl l.status.expires_at;
    renew_count = pos 0;
  };
}

abbrev pub grant : LeaseRequest → LeaseRequest
grant r = record r { status = record r.status { phase = LeaseRequestPhase.granted } }

module _ {W : Type 0} (c : Client W) where
  pub requeue_held : Option Time → Action W Reconciled
  requeue_held none = return (requeue_in (pos minute))
  requeue_held (some e) = do t ← now c; return (requeue_in (sub e t))

  pub store : Lease → Action W Reconciled
  unfolding requeue_held
  store l = do
    written ← c.leases.status_update l
    elim written [
      | err e ↦ return (if is_conflict e then requeue_now else fail e)
      | ok _ ↦ requeue_held l.status.expires_at
    ]

  -- The request is marked before the lease is stored.
  pub award : Lease → LeaseRequest → Action W Reconciled
  unfolding store hand_to
  award l r = do
    t ← now c
    marked ← c.lease_requests.status_update (grant r)
    elim marked [
      | err e ↦
          return (record { requeue = false; requeue_after = pos (5 * second); error = some e })
      | ok _ ↦ store (hand_to t r l)
    ]

  pub settle : Lease → List LeaseRequest → Action W Reconciled
  unfolding award select
  settle l requests =
      if is_available l.status.phase
      then elim (best_request requests) [ none ↦ store l | some r ↦ award l r ]
      else store l

  unfoldable pub reconcile : ObjectKey → Action W Reconciled
  unfolding settle refresh
  reconcile req = do
    found ← c.leases.get req
    elim found [
      | err e ↦ return (not_found_or e)
      | ok lease ↦ do
        t ← now c
        let l = record lease { status = refresh t lease.status }
        listed ← c.lease_requests.list req.namespace (("lease", lease.meta.name) ∷ [])
        elim listed [ err e ↦ return (fail e) | ok requests ↦ settle l requests ]
    ]
