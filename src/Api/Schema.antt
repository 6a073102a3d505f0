-- ===== src/Api/Schema.antt =====
-- What the schemas of the CRDs ask of an object: the `kubebuilder:validation` markers of api/v1, from
-- which config/crd/bases is generated, but for the texts of durations (that of Go's always match)
-- and for the upper limits on the lengths of texts.
use konductor.Prelude.{
  pos, leb_ℤ, ℤ, Bool, true, false, not, ◌&&◌, ◌||◌, String, str_eq, is_blank, Option, none, some,
  List, [], ◌∷◌, any,
}
use konductor.Api.Locks.{MutexStatus, MutexPhase}
use konductor.Api.Counters.{
  SemaphoreSpec, SemaphoreStatus, PermitSpec, ArrivalSpec, WaitGroupStatus, WaitGroupPhase,
}
use konductor.Api.Leases.{LeaseRequestSpec}
use konductor.Api.Gates.{GateCondition, GateSpec}

abbrev pub mutex_status_valid : MutexStatus → Bool
mutex_status_valid s = elim s.phase [
  | MutexPhase.unset ↦ false
  | MutexPhase.unlocked ↦ true
  | MutexPhase.locked ↦ true
]

abbrev pub semaphore_spec_valid : SemaphoreSpec → Bool
semaphore_spec_valid s = leb_ℤ (pos 1) s.permits

abbrev pub semaphore_status_valid : SemaphoreStatus → Bool
semaphore_status_valid s = leb_ℤ (pos 0) s.in_use && leb_ℤ (pos 0) s.available

abbrev pub permit_spec_valid : PermitSpec → Bool
permit_spec_valid p = not (is_blank p.semaphore) && not (is_blank p.holder)

abbrev pub arrival_spec_valid : ArrivalSpec → Bool
arrival_spec_valid a = not (is_blank a.barrier) && not (is_blank a.holder)

abbrev priority_valid : Option ℤ → Bool
priority_valid none = true
priority_valid (some priority) = leb_ℤ (pos 0) priority

abbrev pub lease_request_spec_valid : LeaseRequestSpec → Bool
unfolding priority_valid
lease_request_spec_valid r =
    not (is_blank r.lease) && (not (is_blank r.holder) && priority_valid r.priority)

abbrev pub wait_group_status_valid : WaitGroupStatus → Bool
wait_group_status_valid s = leb_ℤ (pos 0) s.counter && (elim s.phase [
  | WaitGroupPhase.unset ↦ false
  | WaitGroupPhase.waiting ↦ true
  | WaitGroupPhase.done ↦ true
])

abbrev pub is_one_of : List String → String → Bool
is_one_of texts text = any (λ t. str_eq text t) texts

abbrev pub condition_types : List String
condition_types =
    "Job"
    ∷ ("Semaphore" ∷ ("Barrier" ∷ ("Lease" ∷ ("Gate" ∷ ("Mutex" ∷ ("Once" ∷ ("WaitGroup" ∷ [])))))))

abbrev condition_states : List String
condition_states =
    "Complete"
    ∷ ("Failed"
        ∷ ("Active"
            ∷ ("Open"
                ∷ ("Closed"
                    ∷ ("Acquired"
                        ∷ ("Available"
                            ∷ ("Locked"
                                ∷ ("Unlocked"
                                    ∷ ("Done" ∷ ("Pending" ∷ ("Zero" ∷ ("NonZero" ∷ []))))))))))))

-- `State` is left out of the object where it is empty.
abbrev pub condition_valid : GateCondition → Bool
unfolding condition_states
condition_valid k =
    is_one_of condition_types k.type
    && (not (is_blank k.name) && (is_blank k.state || is_one_of condition_states k.state))

abbrev pub all_conditions_valid : List GateCondition → Bool
all_conditions_valid [] = true
all_conditions_valid (k ∷ ks) = condition_valid k && all_conditions_valid ks

abbrev pub gate_spec_valid : GateSpec → Bool
gate_spec_valid g = elim g.conditions [
  | [] ↦ false
  | k ∷ ks ↦ condition_valid k && all_conditions_valid ks
]
