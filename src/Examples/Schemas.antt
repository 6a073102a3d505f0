-- ===== src/Examples/Schemas.antt =====
-- The schemas of the CRDs: what the SDK and the operator send, and what a server refuses.
use konductor.Prelude.{◌≡◌, refl, pos, negsuc, true, none, some, [], ◌∷◌, arith}
use konductor.Api.Errors.{Error, ok, err}
use konductor.Api.Counters.{
  Semaphore, SemaphorePhase, Permit, PermitPhase, Barrier, BarrierPhase, WaitGroup, WaitGroupPhase,
}
use konductor.Api.Gates.{Gate, GatePhase}
use konductor.Api.Schema.{
  semaphore_spec_valid, semaphore_status_valid, wait_group_status_valid, permit_spec_valid,
  arrival_spec_valid, lease_request_spec_valid, gate_spec_valid,
}
use konductor.Client.{Client}
use konductor.Controllers.Semaphore as Operator
use konductor.Controllers.Semaphore.Overdraft.{overdrawn_fails}
use konductor.Controllers.Barrier.{is_timed_out}
use konductor.Controllers.Gate as Gates
use konductor.Controllers.Gate.Unsupported.{unsupported_never_opens}
use konductor.Memory
use konductor.Memory.{resource}
use konductor.Memory.Validation.{enforcing, memory-Enforces}
use konductor.Memory.World.{World, client, empty, named, semaphores_lens, permits_lens, gates_lens}
use konductor.Memory.Host.{host}
use konductor.Sdk.Host.{Host, resolve_holder}
use konductor.Sdk.Schema.{requests_valid, wait_group_updates_valid}
use konductor.Sdk.Semaphore
use konductor.Sdk.Barrier
use konductor.Sdk.Lease
use konductor.Sdk.Gate
use konductor.Sdk.Gate.Refusal.{create_refused}
use konductor.Sdk.WaitGroup.{advance}
use konductor.Sdk.WaitGroup.Counting

-- A server that enforces the schema of gates.
abbrev strict_host : Host World
strict_host = record host {
  client = record client { gates = enforcing gates_lens gate_spec_valid (λ _. true) };
}

create_refused_example : (e : Error) × ((Gate.create strict_host "g" empty).0 ≡ err e)
create_refused_example =
    create_refused strict_host (λ _. true) "g" empty
      (memory-Enforces gates_lens gate_spec_valid (λ _. true))

-- A semaphore of one permit, with two permits that are granted and have not expired.
abbrev semaphore : Semaphore
semaphore = record {
  meta = named "s";
  spec = record { permits = pos 1; ttl = none };
  status = record { in_use = pos 1; available = pos 0; phase = SemaphorePhase.full };
}

abbrev granted_permit : Permit
granted_permit = record {
  meta = named "s-a";
  spec = record { semaphore = "s"; holder = "a"; ttl = none };
  status = record { phase = PermitPhase.granted; acquired_at = none; expires_at = none };
}

abbrev strict_client : Client World
strict_client = record client {
  semaphores = enforcing semaphores_lens semaphore_spec_valid semaphore_status_valid;
  permits = record (resource permits_lens) {
    list = λ namespace labels w. (ok (granted_permit ∷ (granted_permit ∷ [])), w);
  };
}

abbrev crowded : World
crowded = record empty { semaphores = some semaphore }

overdrawn_fails_example :
    (e : Error) × ((Operator.reconcile strict_client
        (record { namespace = "default"; name = "s" })
        crowded).0.error
      ≡ some e)
unfolding Operator.grant_permits Operator.grant_permit Memory.find
overdrawn_fails_example =
    overdrawn_fails strict_client semaphore_spec_valid
      (record { namespace = "default"; name = "s" }) semaphore
      (granted_permit ∷ (granted_permit ∷ [])) 2 crowded crowded crowded crowded _ _
      (memory-Enforces semaphores_lens semaphore_spec_valid semaphore_status_valid) refl refl refl
      refl (omega arith) (omega arith) (omega arith) refl

abbrev barrier : Barrier
barrier = record {
  meta = named "b";
  spec = record { expected = pos 1; timeout = none; quorum = none };
  status = record { arrived = pos 0; phase = BarrierPhase.unset; arrivals = []; opened_at = none };
}

requests_valid_example :
    (permit_spec_valid (Semaphore.new_permit host semaphore "s-a-0" "s" "node" (pos 0)).spec ≡ true)
    × (arrival_spec_valid (Barrier.new_arrival host barrier "s" "node").spec ≡ true)
    × (lease_request_spec_valid (Lease.new_request host "s" "node" (negsuc 4)).spec ≡ true)
unfolding resolve_holder
requests_valid_example =
    requests_valid host empty semaphore barrier "s-a-0" "s" "" (pos 0) (negsuc 4) refl (λ t. refl)

abbrev group : WaitGroup
group = record {
  meta = named "x";
  spec = record { ttl = none };
  status = record { counter = pos 2; phase = WaitGroupPhase.waiting };
}

wait_group_updates_valid_example : wait_group_status_valid (advance (negsuc 4) group).status ≡ true
unfolding Counting.plan
wait_group_updates_valid_example =
    wait_group_updates_valid (Counting.add (negsuc 4)) group _ refl refl

-- A gate on a mutex.
abbrev mutex_gate : Gate
mutex_gate = record {
  meta = named "g";
  spec = record {
    conditions =
        record { type = "Mutex"; name = "m"; namespace = ""; state = "Unlocked"; value = none }
        ∷ [];
    timeout = none;
  };
  status = record { phase = GatePhase.unset; condition_statuses = []; opened_at = none };
}

-- The schema allows it.
mutex_gate_valid : gate_spec_valid mutex_gate.spec ≡ true
mutex_gate_valid = refl

unsupported_never_opens_example :
    (after : Gate) × (w : World) × (Gates.settle client mutex_gate empty
      ≡ Gates.store client after w)
    × (after.status.phase ≡ GatePhase.waiting)
unfolding is_timed_out
unsupported_never_opens_example = unsupported_never_opens client mutex_gate empty refl
