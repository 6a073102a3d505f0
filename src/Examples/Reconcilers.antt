-- ===== src/Examples/Reconcilers.antt =====
-- The reconciler of the gate.
use konductor.Prelude.{◌≡◌, refl, ◌↔◌, ◌⊎◌, true, false, none, some, [], ◌∷◌, map, is_none}
use konductor.Api.Leases.{LeasePhase}
use konductor.Api.Gates.{Gate, GateCondition, GatePhase}
use konductor.Memory
use konductor.Memory.{resource, stored, memory-Serves}
use konductor.Memory.World.{World, empty, client, named}
use konductor.Controllers.Gate
use konductor.Controllers.Gate.Conditions.{
  all_of, timed_out, settle_phase, Evidence, check_condition-Evidence,
}
use konductor.Examples.Tenures.{lease}

abbrev job_condition : GateCondition
job_condition = record {
  type = "Lease";
  name = "l";
  namespace = "";
  state = "Available";
  value = none;
}

abbrev gate : Gate
gate = record {
  meta = named "gate";
  spec = record { conditions = job_condition ∷ []; timeout = none };
  status = record { phase = GatePhase.unset; condition_statuses = []; opened_at = none };
}

abbrev free_lease : World
free_lease = record empty {
  leases = some (record lease { status = record lease.status { phase = LeasePhase.available } });
}

settle_phase_example :
    (after : Gate) × (w : World) × (Gate.settle client gate free_lease ≡ Gate.store client after w)
    × (map (λ s. s.name) after.status.condition_statuses ≡ map (λ k. k.name) gate.spec.conditions)
    × ((after.status.phase ≡ GatePhase.opened) ↔ (all_of after.status.condition_statuses ≡ true))
    × ((after.status.phase ≡ GatePhase.failed) ↔ (
        (all_of after.status.condition_statuses ≡ false)
        × (timed_out (client.clock w) gate ≡ true)))
    × ((is_none gate.status.opened_at ≡ true) ⊎ (after.status.opened_at ≡ gate.status.opened_at))
settle_phase_example = settle_phase client gate free_lease

check_condition-Evidence_example : Evidence client gate job_condition free_lease
unfolding Gate.check_condition Gate.check_lease Memory.find
check_condition-Evidence_example =
    check_condition-Evidence client gate job_condition free_lease refl
