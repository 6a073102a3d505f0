-- ===== src/Examples/Compositions.antt =====
-- The SDK together with the operator: arrivals that open a barrier, a permit that is granted, and a
-- gate that does not stay closed.
use konductor.Prelude.{◌≡◌, refl, pos, ◌-ℤ◌, int32, true, none, some, [], ◌∷◌, arith}
use konductor.Api.Counters.{Barrier, BarrierPhase, Semaphore, SemaphorePhase, Permit, PermitPhase}
use konductor.Api.Leases.{LeasePhase}
use konductor.Api.Gates.{Gate, GatePhase}
use konductor.Memory
use konductor.Memory.{resource, stored, memory-Serves}
use konductor.Memory.Collection.{memory-Collects}
use konductor.Memory.World.{
  World, client, empty, named, barriers_lens, arrivals_lens, permits_lens, gates_lens,
}
use konductor.Memory.Host.{host}
use konductor.Sdk.Host.{key, resolve_holder}
use konductor.Sdk.Options.{apply, with_holder}
use konductor.Controllers.Outcome.{stop}
use konductor.Controllers.Barrier as Controller
use konductor.Controllers.Gate as Gates
use konductor.Controllers.Semaphore as Operator
use konductor.Controllers.Semaphore.Granting.{Granted}
use konductor.Controllers.Semaphore.Admission.{live_permit-Granted}
use konductor.Sdk.Barrier
use konductor.Sdk.Barrier.Arrivals.{Arrivals, nobody, arrives}
use konductor.Sdk.Barrier.Opening.{Arrivals-open}
use konductor.Sdk.Gate
use konductor.Sdk.Gate.Closing.{close_undone}

-- A barrier that waits for one arrival.
abbrev waiting_barrier : Barrier
waiting_barrier = record {
  meta = named "b";
  spec = record { expected = pos 1; timeout = none; quorum = none };
  status = record { arrived = pos 0; phase = BarrierPhase.unset; arrivals = []; opened_at = none };
}

abbrev start : World
start = record empty { barriers = some waiting_barrier }

abbrev after_arrival : World
after_arrival = record start { arrivals = some (Barrier.new_arrival host waiting_barrier "b" "a") }

one_arrival : Arrivals host "b" (stored arrivals_lens) start 1 after_arrival
unfolding Barrier.arrive Memory.find apply with_holder resolve_holder
one_arrival = arrives "node" (with_holder "a" ∷ []) nobody refl

abbrev after_reconcile : World
after_reconcile = record after_arrival {
  barriers = some (record waiting_barrier {
    meta = record (named "b") { resource_version = 2 };
    status = record {
      arrived = pos 1;
      phase = BarrierPhase.opened;
      arrivals = "a" ∷ [];
      opened_at = some (pos 0);
    };
  });
}

Arrivals-open_example :
    (b : Barrier) × (stored barriers_lens after_reconcile (key host "b") ≡ some b)
    × (b.status.phase ≡ BarrierPhase.opened)
unfolding Controller.reconcile Controller.evaluate Controller.requeue_waiting
    Controller.is_timed_out Memory.find Memory.write int32
Arrivals-open_example =
    Arrivals-open host "b" (stored arrivals_lens) (memory-Collects arrivals_lens)
      (stored barriers_lens) (memory-Serves barriers_lens) (λ k w j. refl)
      (λ namespace labels w j. refl) 1 after_arrival after_arrival after_arrival after_reconcile
      waiting_barrier (Barrier.new_arrival host waiting_barrier "b" "a" ∷ []) stop one_arrival
      (omega arith) refl refl (omega arith) refl refl refl

-- A semaphore with one permit, and a permit that nobody has granted yet.
abbrev semaphore : Semaphore
semaphore = record {
  meta = named "s";
  spec = record { permits = pos 1; ttl = none };
  status = record { in_use = pos 0; available = pos 1; phase = SemaphorePhase.ready };
}

abbrev asked : Permit
asked = record {
  meta = record (named "s-a") { labels = ("semaphore", "s") ∷ [] };
  spec = record { semaphore = "s"; holder = "a"; ttl = none };
  status = record { phase = PermitPhase.unset; acquired_at = none; expires_at = none };
}

abbrev given : Permit
given = record asked {
  meta = record asked.meta { resource_version = 2 };
  status = record asked.status { phase = PermitPhase.granted };
}

abbrev asking : World
asking = record empty { semaphores = some semaphore; permits = some asked }

abbrev granting : World
granting = record asking { permits = some given }

abbrev granted : World
granted = record granting {
  semaphores = some (record semaphore {
    meta = record (named "s") { resource_version = 2 };
    status = record { in_use = pos 1; available = pos 0; phase = SemaphorePhase.full };
  });
}

live_permit-Granted_example :
    Granted client (stored permits_lens) (memory-Serves permits_lens) granted (key host "s-a")
unfolding Operator.reconcile Operator.grant_permits Operator.grant_permit Operator.settle
    Operator.account Operator.interval Memory.find Memory.write int32 ◌-ℤ◌
live_permit-Granted_example =
    live_permit-Granted client (stored permits_lens) (memory-Serves permits_lens)
      (memory-Collects permits_lens) (λ s w k. refl) (key host "s-a") (key host "s") semaphore asked
      (asked ∷ []) 1 asking asking asking granting granted _ refl refl refl refl refl refl refl refl
      refl

-- A gate that opens when its lease is free.
abbrev lease_gate : Gate
lease_gate = record {
  meta = named "g";
  spec = record {
    conditions =
        record { type = "Lease"; name = "l"; namespace = ""; state = "Available"; value = none }
        ∷ [];
    timeout = none;
  };
  status = record { phase = GatePhase.opened; condition_statuses = []; opened_at = some (pos 0) };
}

abbrev with_gate : Gate → World
with_gate g = record empty {
  gates = some g;
  leases = some (record {
    meta = named "l";
    spec = record { ttl = none; priority = none };
    status = record {
      holder = "";
      acquired_at = none;
      expires_at = none;
      phase = LeasePhase.available;
      renew_count = pos 0;
    };
  });
}

abbrev closed_gate : Gate
closed_gate = record lease_gate {
  meta = record (named "g") { resource_version = 2 };
  status = record lease_gate.status { phase = GatePhase.waiting };
}

abbrev reopened_gate : Gate
reopened_gate = record lease_gate {
  meta = record (named "g") { resource_version = 3 };
  status = record {
    phase = GatePhase.opened;
    condition_statuses =
        record { type = "Lease"; name = "l"; met = true; message = "Lease is available" } ∷ [];
    opened_at = some (pos 0);
  };
}

close_undone_example :
    (closed_gate.status.phase ≡ GatePhase.waiting)
    × ((g : Gate) × (stored gates_lens (with_gate reopened_gate) (key host "g") ≡ some g)
        × (g.status.phase ≡ GatePhase.opened))
unfolding Gate.write_phase Gates.reconcile Gates.settle Gates.check_conditions Gates.check_condition
    Gates.check_lease Gates.conclude Gates.store Memory.find Memory.write
close_undone_example =
    close_undone host (stored gates_lens) (memory-Serves gates_lens) "g" (with_gate lease_gate)
      (with_gate closed_gate) (with_gate closed_gate) (with_gate reopened_gate) closed_gate stop
      refl refl refl refl refl
