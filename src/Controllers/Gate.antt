-- ===== src/Controllers/Gate.antt =====
-- controllers/gate_controller.go
pub mod Conditions
pub mod Reopening
pub mod Unsupported
use konductor.Prelude.{
  ℕ, ◌*◌, ◌/◌, ℤ, pos, pos_part, ltb, ltb_ℤ, leb_ℤ, Bool, true, false, ◌&&◌, Option, none, some,
  List, [], ◌∷◌, String, str_eq, Action, return, ◌>>=◌, is_blank, if◌then◌else◌,
}
use konductor.Api.Meta.{Time, Duration, ObjectKey, add, sub, second}
use konductor.Api.Errors.{ok, err, is_not_found}
use konductor.Api.Counters.{BarrierPhase}
use konductor.Api.Leases.{is_available}
use konductor.Api.Gates.{Gate, GateCondition, GateConditionStatus, GatePhase, is_waiting_gate}
use konductor.Client.{Client, now}
use konductor.Controllers.Outcome.{Reconciled, stop, fail, requeue_in, not_found_or}
use konductor.Controllers.Barrier.{is_timed_out, or_now}

-- What a condition comes to: its status, and whether it leaves `allMet` as it is.
abbrev pub Verdict : Type 0
Verdict = GateConditionStatus × Bool

abbrev verdict : GateCondition → Bool → String → Verdict
verdict k met message = (record { type = k.type; name = k.name; met = met; message = message }, met)

abbrev judge : GateCondition → Bool → String → String → Verdict
judge k met yes_message no_message =
    if met then verdict k true yes_message else verdict k false no_message

abbrev at_least : Option ℤ → ℤ → Bool
at_least none available = false
at_least (some value) available = leb_ℤ value available

abbrev is_opened : BarrierPhase → Bool
is_opened BarrierPhase.opened = true
is_opened _ = false

-- The namespace that a condition names, or the gate's.
abbrev target : Gate → GateCondition → ObjectKey
target g k = record {
  namespace = if is_blank k.namespace then g.meta.namespace else k.namespace;
  name = k.name;
}

-- The status with the conditions' and the phase that follows from them.
unfoldable pub conclude : Time → Gate → List GateConditionStatus → Bool → Gate
conclude t g statuses all_met = record g {
  status =
      if all_met
      then record {
        condition_statuses = statuses;
        phase = GatePhase.opened;
        opened_at = or_now t g.status.opened_at;
      }
      else record {
        condition_statuses = statuses;
        phase =
            if is_timed_out t g.meta g.spec.timeout then GatePhase.failed else GatePhase.waiting;
        opened_at = g.status.opened_at;
      };
}

-- A tenth of the time that remains, from one second to thirty.
unfoldable pub backoff : Duration → ℕ
backoff remaining =
    if ltb_ℤ (pos 0) remaining
    then (let tenth = pos_part remaining / 10 in
        if ltb tenth second then second else if ltb (30 * second) tenth then 30 * second else tenth)
    else 10 * second

module _ {W : Type 0} (c : Client W) where
  pub check_job : Gate → GateCondition → Action W Verdict
  check_job g k = do
    found ← c.job_succeeded (target g k)
    return (elim found [
      | err e ↦ verdict k false (if is_not_found e then "Job not found" else "Failed to get Job")
      | ok succeeded ↦
          judge k (str_eq k.state "Complete" && ltb_ℤ (pos 0) succeeded)
            "Job completed successfully" "Job not in required state"
    ])

  pub check_semaphore : Gate → GateCondition → Action W Verdict
  check_semaphore g k = do
    found ← c.semaphores.get (target g k)
    return (elim found [
      | err e ↦ verdict k false "Semaphore not found"
      | ok s ↦
          judge k (at_least k.value s.status.available) "Semaphore has required permits"
            "Semaphore does not have required permits"
    ])

  pub check_barrier : Gate → GateCondition → Action W Verdict
  check_barrier g k = do
    found ← c.barriers.get (target g k)
    return (elim found [
      | err e ↦ verdict k false "Barrier not found"
      | ok b ↦
          judge k (str_eq k.state "Open" && is_opened b.status.phase) "Barrier is open"
            "Barrier is not open"
    ])

  unfoldable pub check_lease : Gate → GateCondition → Action W Verdict
  check_lease g k = do
    found ← c.leases.get (target g k)
    return (elim found [
      | err e ↦ verdict k false "Lease not found"
      | ok l ↦
          judge k (str_eq k.state "Available" && is_available l.status.phase) "Lease is available"
            "Lease is not available"
    ])

  -- The `switch` over `condition.Type`.
  unfoldable pub check_condition : Gate → GateCondition → Action W Verdict
  check_condition g k =
      if str_eq k.type "Job"
      then check_job g k
      else if str_eq k.type "Semaphore"
      then check_semaphore g k
      else if str_eq k.type "Barrier"
      then check_barrier g k
      else if str_eq k.type "Lease"
      then check_lease g k
      else return (verdict k false "Unknown condition type")

  -- The loop over the conditions: the statuses, and `allMet`.
  unfoldable pub check_conditions :
      Gate → List GateCondition → Bool → Action W (List GateConditionStatus × Bool)
  check_conditions g [] all_met = return ([], all_met)
  check_conditions g (k ∷ ks) all_met = do
    v ← check_condition g k
    rest ← check_conditions g ks (if v.1 then all_met else false)
    return (v.0 ∷ rest.0, rest.1)

  unfoldable pub requeue_waiting : Gate → Option Duration → Action W Reconciled
  unfolding backoff
  requeue_waiting g none = return (requeue_in (pos (10 * second)))
  requeue_waiting g (some timeout) = do
    t ← now c
    return (requeue_in (pos (backoff (sub (add g.meta.creation_timestamp timeout) t))))

  unfoldable pub store : Gate → Action W Reconciled
  unfolding requeue_waiting
  store g = do
    written ← c.gates.status_update g
    elim written [
      | err e ↦ return (fail e)
      | ok _ ↦
          if is_waiting_gate g.status.phase then requeue_waiting g g.spec.timeout else return stop
    ]

  unfoldable pub settle : Gate → Action W Reconciled
  unfolding check_conditions conclude store
  settle g = do
    checked ← check_conditions g g.spec.conditions true
    t ← now c
    store (conclude t g checked.0 checked.1)

  unfoldable pub reconcile : ObjectKey → Action W Reconciled
  unfolding settle
  reconcile req = do
    found ← c.gates.get req
    elim found [ err e ↦ return (not_found_or e) | ok g ↦ settle g ]
