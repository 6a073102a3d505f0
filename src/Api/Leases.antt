-- ===== src/Api/Leases.antt =====
-- api/v1/lease_types.go and leaserequest_types.go.
use konductor.Prelude.{ℤ, Bool, true, false, String, Option}
use konductor.Api.Meta.{Time, Duration, Object}

pub record LeaseSpec : Type 0 where
  pub ttl : Option Duration
  pub priority : Option ℤ

pub data LeasePhase : Type 0 where
  unset available held expired : LeasePhase

pub record LeaseStatus : Type 0 where
  pub holder : String
  pub acquired_at : Option Time
  pub expires_at : Option Time
  pub phase : LeasePhase
  pub renew_count : ℤ

abbrev pub Lease : Type 0
Lease = Object LeaseSpec LeaseStatus

abbrev pub is_available : LeasePhase → Bool
is_available LeasePhase.available = true
is_available _ = false

pub record LeaseRequestSpec : Type 0 where
  pub lease : String
  pub holder : String
  pub priority : Option ℤ
  pub ttl : Option Duration

pub data LeaseRequestPhase : Type 0 where
  unset pending granted denied : LeaseRequestPhase

pub record LeaseRequestStatus : Type 0 where
  pub phase : LeaseRequestPhase
  pub requested_at : Option Time

abbrev pub LeaseRequest : Type 0
LeaseRequest = Object LeaseRequestSpec LeaseRequestStatus

abbrev pub is_granted_request : LeaseRequestPhase → Bool
is_granted_request LeaseRequestPhase.granted = true
is_granted_request _ = false

abbrev pub is_denied_request : LeaseRequestPhase → Bool
is_denied_request LeaseRequestPhase.denied = true
is_denied_request _ = false
