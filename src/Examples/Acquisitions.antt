-- ===== src/Examples/Acquisitions.antt =====
-- Acquiring a lease while the operator grants the request.
use konductor.Prelude.{◌≡◌, refl, pos, some, none, [], ◌∷◌, String}
use konductor.Api.Errors.{ok}
use konductor.Api.Leases.{LeaseRequest, LeaseRequestPhase}
use konductor.Memory
use konductor.Memory.World.{World, empty}
use konductor.Memory.Host.{host, host-BacksOff, poll_up_to}
use konductor.Sdk.Host.{Host, key, resolve_holder}
use konductor.Sdk.Options.{apply, with_holder}
use konductor.Sdk.Wait.{wait_for_condition, back_off, backoff_of, poll}
use konductor.Sdk.Wait.Backoff.{calculate_backoff_steps}
use konductor.Sdk.Lease
use konductor.Sdk.Lease.Acquisition.{Decided, acquire-Decided}

abbrev granted : LeaseRequest
granted = record (Lease.new_request host "l" "a" (pos 0)) {
  status = record { phase = LeaseRequestPhase.granted; requested_at = none };
}

abbrev granted_world : World
granted_world = record empty { lease_requests = some granted }

-- While the call sleeps, the operator grants its request.
abbrev served : Host World
served = record host { sleep = λ d w. (ok tt, granted_world) }

acquire-Decided_example :
    Decided served (key served "l-a") granted_world × (◌≡◌ {A = String} "a" "a")
unfolding Lease.acquire Lease.conclude wait_for_condition back_off backoff_of
    calculate_backoff_steps poll poll_up_to Memory.find apply with_holder resolve_holder
acquire-Decided_example =
    acquire-Decided served "l" (with_holder "a" ∷ []) empty granted_world
      (record { name = "l"; request_id = "l-a"; holder = "a" }) host-BacksOff refl
