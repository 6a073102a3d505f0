-- ===== src/Controllers/Gate/Conditions.antt =====
-- What the statuses of a gate's conditions say, and the phase and the delay that follow
-- (controllers/gate_controller.go).
use konductor.Prelude.{
  ◌≡◌, refl, inl, inr, Option-cases, Bool-cases, str_eq, if◌then◌else◌, ◌≤ℤ◌, ◌<ℤ◌, ◌↔◌, ◌⊎◌, ◌*◌,
  ◌≤◌, ℤ, pos, Bool, true, false, ◌&&◌, some, is_none, List, [], ◌∷◌, map, arith,
}
use konductor.Api.Meta.{Time, Duration, second}
use konductor.Api.Errors.{ok, Result-cases}
use konductor.Api.Gates.{Gate, GateCondition, GateConditionStatus, GatePhase}
use konductor.Api.Counters.{Semaphore, Barrier, BarrierPhase}
use konductor.Api.Leases.{Lease, LeasePhase}
use konductor.Client.{Client}
use konductor.Controllers.Barrier.{is_timed_out}
use konductor.Controllers.Gate.{
  Verdict, check_job, check_semaphore, check_barrier, check_lease, check_condition,
  check_conditions, conclude, backoff, settle, store, target,
}

abbrev pub all_of : List GateConditionStatus → Bool
all_of [] = true
all_of (s ∷ ss) = s.met && all_of ss

-- A verdict is about its condition, and takes `allMet` away exactly if it is not met.
abbrev IsAbout : GateCondition → Verdict → Type 0
IsAbout k v = (v.0.type ≡ k.type) × (v.0.name ≡ k.name) × (v.1 ≡ v.0.met)

check_condition-IsAbout :
    {W : Type 0} (c : Client W) (g : Gate) (k : GateCondition) (w : W)
    → IsAbout k (check_condition c g k w).0
unfolding check_condition check_job check_semaphore check_barrier check_lease
check_condition-IsAbout c g k w = ground arith

-- The loop gives one status for each condition, in their order, and `allMet` at its end says
-- whether all of them are met.
check_conditions_from :
    {W : Type 0} (c : Client W) (g : Gate) (ks : List GateCondition) (b : Bool) (w : W)
    → let checked = (check_conditions c g ks b w).0 in
      (map (λ s. s.name) checked.0 ≡ map (λ k. k.name) ks) × (checked.1 ≡ (b && all_of checked.0))
unfolding check_conditions
check_conditions_from c g [] b w = ground arith
check_conditions_from c g (k ∷ ks) b w =
    let v = (check_condition c g k w).0 in
    ground (
      arith,
      check_condition-IsAbout c g k w,
      check_conditions_from c g ks (if v.1 then b else false) (check_condition c g k w).1,
    )

-- With a timeout or without one, a waiting gate comes back after one second to thirty.
backoff_bounds :
    (remaining : Duration) → (second ≤ backoff remaining) × (backoff remaining ≤ 30 * second)
unfolding backoff
backoff_bounds remaining = ground arith

abbrev pub timed_out : Time → Gate → Bool
timed_out t g = is_timed_out t g.meta g.spec.timeout

-- A `Reconcile` stores a gate with one status for each of its conditions, in their order, that is
-- open exactly when all of these are met, has failed exactly when some is not and the timeout is
-- over, and keeps the time at which it first opened.
pub settle_phase :
    {W : Type 0} (c : Client W) (g : Gate) (w : W)
    → (after : Gate) × (w' : W) × (settle c g w ≡ store c after w')
      × (map (λ s. s.name) after.status.condition_statuses ≡ map (λ k. k.name) g.spec.conditions)
      × ((after.status.phase ≡ GatePhase.opened) ↔ (all_of after.status.condition_statuses ≡ true))
      × ((after.status.phase ≡ GatePhase.failed)
          ↔ ((all_of after.status.condition_statuses ≡ false) × (timed_out (c.clock w') g ≡ true)))
      × ((is_none g.status.opened_at ≡ true) ⊎ (after.status.opened_at ≡ g.status.opened_at))
unfolding settle conclude
settle_phase c g w =
    let checked = check_conditions c g g.spec.conditions true w in
    let about = check_conditions_from c g g.spec.conditions true w in
    (
      conclude (c.clock checked.1) g checked.0.0 checked.0.1,
      checked.1,
      refl,
      ground arith,
      ground arith,
      ground arith,
      ground arith,
    )

-- What a condition that is met rests on: the object that it names was read, and is in the state
-- that it asks for.
pub data Evidence {W : Type 0} (c : Client W) (g : Gate) (k : GateCondition) (w : W) : Type 0 where
  job_complete :
      {n : ℤ}
      → str_eq k.type "Job" ≡ true
      → str_eq k.state "Complete" ≡ true
      → (c.job_succeeded (target g k) w).0 ≡ ok n
      → pos 0 <ℤ n
      → Evidence c g k w
  permits_left :
      {s : Semaphore} {v : ℤ}
      → str_eq k.type "Semaphore" ≡ true
      → k.value ≡ some v
      → (c.semaphores.get (target g k) w).0 ≡ ok s
      → v ≤ℤ s.status.available
      → Evidence c g k w
  barrier_open :
      {b : Barrier}
      → str_eq k.type "Barrier" ≡ true
      → str_eq k.state "Open" ≡ true
      → (c.barriers.get (target g k) w).0 ≡ ok b
      → b.status.phase ≡ BarrierPhase.opened
      → Evidence c g k w
  lease_free :
      {l : Lease}
      → str_eq k.type "Lease" ≡ true
      → str_eq k.state "Available" ≡ true
      → (c.leases.get (target g k) w).0 ≡ ok l
      → l.status.phase ≡ LeasePhase.available
      → Evidence c g k w

job-Evidence :
    {W : Type 0} (c : Client W) (g : Gate) (k : GateCondition) (w : W)
    → str_eq k.type "Job" ≡ true
    → (check_job c g k w).0.0.met ≡ true
    → Evidence c g k w
unfolding check_job
job-Evidence c g k w t m = elim (Result-cases (c.job_succeeded (target g k) w).0) [
  | inl (e, failed) ↦ ground arith
  | inr (n, found) ↦ job_complete t (ground arith) found (ground arith)
]

semaphore-Evidence :
    {W : Type 0} (c : Client W) (g : Gate) (k : GateCondition) (w : W)
    → str_eq k.type "Semaphore" ≡ true
    → (check_semaphore c g k w).0.0.met ≡ true
    → Evidence c g k w
unfolding check_semaphore
semaphore-Evidence c g k w t m = elim (Result-cases (c.semaphores.get (target g k) w).0) [
  | inl (e, failed) ↦ ground arith
  | inr (s, found) ↦ elim (Option-cases k.value) [
    | inl missing ↦ ground arith
    | inr (v, asked) ↦ permits_left t asked found (ground arith)
  ]
]

barrier-Evidence :
    {W : Type 0} (c : Client W) (g : Gate) (k : GateCondition) (w : W)
    → str_eq k.type "Barrier" ≡ true
    → (check_barrier c g k w).0.0.met ≡ true
    → Evidence c g k w
unfolding check_barrier
barrier-Evidence c g k w t m = elim (Result-cases (c.barriers.get (target g k) w).0) [
  | inl (e, failed) ↦ ground arith
  | inr (b, found) ↦ barrier_open t (ground arith) found (ground arith)
]

lease-Evidence :
    {W : Type 0} (c : Client W) (g : Gate) (k : GateCondition) (w : W)
    → str_eq k.type "Lease" ≡ true
    → (check_lease c g k w).0.0.met ≡ true
    → Evidence c g k w
unfolding check_lease
lease-Evidence c g k w t m = elim (Result-cases (c.leases.get (target g k) w).0) [
  | inl (e, failed) ↦ ground arith
  | inr (l, found) ↦ lease_free t (ground arith) found (ground arith)
]

-- No condition counts as met without evidence: not of an unknown type, and not on a failed read.
pub check_condition-Evidence :
    {W : Type 0} (c : Client W) (g : Gate) (k : GateCondition) (w : W)
    → (check_condition c g k w).0.0.met ≡ true
    → Evidence c g k w
unfolding check_condition
check_condition-Evidence c g k w m = elim (Bool-cases (str_eq k.type "Job")) [
  | inl job ↦ job-Evidence c g k w job (ground arith)
  | inr no_job ↦ elim (Bool-cases (str_eq k.type "Semaphore")) [
    | inl semaphore ↦ semaphore-Evidence c g k w semaphore (ground arith)
    | inr no_semaphore ↦ elim (Bool-cases (str_eq k.type "Barrier")) [
      | inl barrier ↦ barrier-Evidence c g k w barrier (ground arith)
      | inr no_barrier ↦ elim (Bool-cases (str_eq k.type "Lease")) [
        | inl lease ↦ lease-Evidence c g k w lease (ground arith)
        | inr no_lease ↦ ground arith
      ]
    ]
  ]
]
