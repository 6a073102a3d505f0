-- ===== src/Cli/Status.antt =====
-- cli/status.go
pub mod Overview
use konductor.Prelude.{
  ℕ, ℤ, pos, Bool, true, false, String, is_blank, Option, none, some, List, [], ◌∷◌, ◌++◌, Action,
  return, ◌>>=◌, if◌then◌else◌,
}
use konductor.Api.Meta.{Time, ObjectMeta}
use konductor.Api.Errors.{Error, Result, ok, err, panicked}
use konductor.Api.Counters.{Semaphore, Permit, Barrier}
use konductor.Api.Leases.{Lease, LeaseStatus, LeaseRequest, LeaseRequestPhase}
use konductor.Api.Gates.{Gate, GateCondition, GateConditionStatus}
use konductor.Sdk.Host.{Host}
use konductor.Sdk.Client.{list_permits, list_lease_requests}
use konductor.Sdk.Semaphore
use konductor.Sdk.Barrier
use konductor.Sdk.Lease
use konductor.Sdk.Gate
use konductor.Cli.Output.{
  Cli, Outcome, Line, Field, words, number, lasting, truth, info_line, warn_line, exit_with, finish,
  report, each, connected, semaphore_phase, barrier_phase, lease_phase, gate_phase,
}

abbrev pub day_layout : String
day_layout = "2006-01-02 15:04:05"

abbrev pub name_fields : ObjectMeta → List (String × Field)
name_fields m = ("name", words m.name) ∷ ("namespace", words m.namespace) ∷ []

abbrev pub is_pending_request : LeaseRequestPhase → Bool
is_pending_request LeaseRequestPhase.pending = true
is_pending_request _ = false

abbrev pub pending_line : LeaseRequest → List Line
pending_line r =
    if is_pending_request r.status.phase
    then info_line "Pending request" (
        ("holder", words r.spec.holder)
        ∷ ("priority", number (elim r.spec.priority [ none ↦ pos 0 | some p ↦ p ]))
        ∷ [])
      ∷ []
    else []

abbrev pub value_field : Option ℤ → List (String × Field)
value_field none = []
value_field (some n) = ("required_value", number n) ∷ []

abbrev pub state_field : String → List (String × Field)
state_field s = if is_blank s then [] else ("required_state", words s) ∷ []

-- The line of a condition and of its status, if there is one yet.
abbrev pub condition_line : GateCondition → Bool → String → Line
condition_line condition met message = info_line "Condition" (
    (("met", truth met)
      ∷ ("type", words condition.type)
      ∷ ("name", words condition.name)
      ∷ ("message", words message)
      ∷ [])
    ++ (state_field condition.state ++ value_field condition.value))

-- The loop over the conditions, each with the status at its index.
unfoldable pub condition_lines : List GateCondition → List GateConditionStatus → List Line
condition_lines [] statuses = []
condition_lines (condition ∷ rest) [] =
    condition_line condition false "Checking..." ∷ condition_lines rest []
condition_lines (condition ∷ rest) (s ∷ statuses) =
    condition_line condition s.met s.message ∷ condition_lines rest statuses

module _ {W : Type 0} (c : Cli W) where
  abbrev pub time_field : String → Option Time → List (String × Field)
  time_field label none = []
  time_field label (some t) = (label, words (c.format day_layout t)) ∷ []

  abbrev pub permit_line : Permit → List Line
  permit_line p =
      info_line "Active permit" (
        ("holder", words p.spec.holder)
        ∷ (
          "expires",
          words (elim p.status.expires_at [ none ↦ "Active" | some t ↦ c.format "15:04:05" t ]),
        )
        ∷ [])
      ∷ []

  abbrev pub semaphore_line : Semaphore → Line
  semaphore_line s = info_line "Semaphore status" (
      name_fields s.meta
      ++ (("permits_total", number s.spec.permits)
          ∷ ("permits_in_use", number s.status.in_use)
          ∷ ("permits_available", number s.status.available)
          ∷ ("phase", words (semaphore_phase s.status.phase))
          ∷ []))

  pub semaphore : String → Action W Outcome
  semaphore name = connected c (λ h. do
    found ← Semaphore.get h name
    elim found [
      | err e ↦ return (exit_with e)
      | ok s ↦ do
        listed ← list_permits h name
        return (
            finish (
              semaphore_line s ∷ (elim listed [
                | err e ↦ warn_line "Failed to list permits" e ∷ []
                | ok permits ↦ each permit_line permits
              ])))
    ])

  abbrev pub quorum_field : Option ℤ → List (String × Field)
  quorum_field none = []
  quorum_field (some n) = ("quorum", number n) ∷ []

  abbrev pub barrier_lines : Barrier → List Line
  barrier_lines b =
      info_line "Barrier status" (
        name_fields b.meta
        ++ ((("expected", number b.spec.expected)
              ∷ ("arrived", number b.status.arrived)
              ∷ ("phase", words (barrier_phase b.status.phase))
              ∷ [])
            ++ (quorum_field b.spec.quorum ++ time_field "opened" b.status.opened_at)))
      ∷ each (λ holder. info_line "Arrival" (("holder", words holder) ∷ []) ∷ []) b.status.arrivals

  pub barrier : String → Action W Outcome
  barrier name =
      connected c (λ h. do found ← Barrier.get h name; return (report found barrier_lines))

  abbrev pub holder_fields : LeaseStatus → List (String × Field)
  holder_fields s =
      if is_blank s.holder
      then []
      else ("holder", words s.holder)
        ∷ (time_field "acquired" s.acquired_at
            ++ (time_field "expires" s.expires_at ++ (("renewals", number s.renew_count) ∷ [])))

  -- `lease` from the lease that was read: `l.Spec.TTL.Duration` panics on a nil TTL.
  unfoldable pub show_lease : String → Lease → Host W → Action W Outcome
  show_lease name l h = elim l.spec.ttl [
    | none ↦ return (exit_with panicked)
    | some ttl ↦ do
      listed ← list_lease_requests h name
      return (
          finish (
            info_line "Lease status" (
              name_fields l.meta
              ++ (("ttl", lasting ttl)
                  ∷ ("phase", words (lease_phase l.status.phase))
                  ∷ holder_fields l.status))
            ∷ (elim listed [
              | err e ↦ warn_line "Failed to list lease requests" e ∷ []
              | ok requests ↦ each pending_line requests
            ])))
  ]

  unfoldable pub lease : String → Action W Outcome
  lease name = connected c (λ h. do
    found ← Lease.get h name
    elim found [ err e ↦ return (exit_with e) | ok l ↦ show_lease name l h ])

  abbrev pub gate_line : Gate → Line
  gate_line g = info_line "Gate status" (
      name_fields g.meta
      ++ (("phase", words (gate_phase g.status.phase)) ∷ time_field "opened" g.status.opened_at))

  pub gate : String → Action W Outcome
  gate name = connected c (λ h. do
    found ← Gate.get h name
    return (
        report found
          (λ g. gate_line g ∷ condition_lines g.spec.conditions g.status.condition_statuses)))
