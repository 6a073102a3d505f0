-- ===== src/Cli/Status/Overview.antt =====
-- The command `status all` of cli/status.go.
use konductor.Prelude.{pos, String, List, [], ◌∷◌, ◌++◌, Action, return, ◌>>=◌}
use konductor.Api.Errors.{Result, ok, err}
use konductor.Api.Counters.{Semaphore, Barrier}
use konductor.Api.Leases.{Lease}
use konductor.Api.Gates.{Gate}
use konductor.Sdk.Semaphore
use konductor.Sdk.Barrier
use konductor.Sdk.Lease
use konductor.Sdk.Gate
use konductor.Cli.Output.{
  Cli, Outcome, Line, words, number, info_line, warn_line, finish, each, counted, connected,
  or_else, semaphore_phase, barrier_phase, lease_phase, gate_phase,
}
use konductor.Cli.Gate.{met_count}

abbrev pub semaphore_line : Semaphore → List Line
semaphore_line s =
    info_line "Semaphore" (
      ("name", words s.meta.name)
      ∷ ("in_use", number s.status.in_use)
      ∷ ("total", number s.spec.permits)
      ∷ ("phase", words (semaphore_phase s.status.phase))
      ∷ [])
    ∷ []

abbrev pub barrier_line : Barrier → List Line
barrier_line b =
    info_line "Barrier" (
      ("name", words b.meta.name)
      ∷ ("arrived", number b.status.arrived)
      ∷ ("expected", number b.spec.expected)
      ∷ ("phase", words (barrier_phase b.status.phase))
      ∷ [])
    ∷ []

abbrev pub lease_line : Lease → List Line
lease_line l =
    info_line "Lease" (
      ("name", words l.meta.name)
      ∷ ("holder", words (or_else l.status.holder "Available"))
      ∷ ("phase", words (lease_phase l.status.phase))
      ∷ [])
    ∷ []

abbrev pub gate_line : Gate → List Line
gate_line g =
    info_line "Gate" (
      ("name", words g.meta.name)
      ∷ ("conditions_met", number (pos (met_count g.status.condition_statuses)))
      ∷ ("conditions_total", counted g.spec.conditions)
      ∷ ("phase", words (gate_phase g.status.phase))
      ∷ [])
    ∷ []

-- One section: the warning, or the title with the count, and a line for each object.
abbrev pub section : {A : Type 0} → String → String → (A → List Line) → Result (List A) → List Line
section title trouble lines (err e) = warn_line trouble e ∷ []
section title trouble lines (ok xs) = info_line title (("count", counted xs) ∷ []) ∷ each lines xs

module _ {W : Type 0} (c : Cli W) where
  pub all : Action W Outcome
  all = connected c (λ h. do
    semaphores ← Semaphore.list h
    barriers ← Barrier.list h
    leases ← Lease.list h
    gates ← Gate.list h
    return (
        finish (
          info_line "Konductor Status Overview" []
          ∷ (section "Semaphores" "Failed to list semaphores" semaphore_line semaphores
              ++ (section "Barriers" "Failed to list barriers" barrier_line barriers
                  ++ (section "Leases" "Failed to list leases" lease_line leases
                      ++ section "Gates" "Failed to list gates" gate_line gates))))))
