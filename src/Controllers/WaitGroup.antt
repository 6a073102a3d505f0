-- ===== src/Controllers/WaitGroup.antt =====
-- controllers/waitgroup_controller.go
pub mod Phases
use konductor.Prelude.{ℤ, pos, leb_ℤ, Option, none, some, Action, return, ◌>>=◌, if◌then◌else◌}
use konductor.Api.Meta.{ObjectKey}
use konductor.Api.Errors.{ok, err}
use konductor.Api.Counters.{WaitGroup, WaitGroupPhase, same_group_phase}
use konductor.Client.{Client}
use konductor.Controllers.Outcome.{Reconciled, stop, fail, not_found_or}

unfoldable pub phase_of : ℤ → WaitGroupPhase
phase_of counter = if leb_ℤ counter (pos 0) then WaitGroupPhase.done else WaitGroupPhase.waiting

-- The wait group that is sent, if its phase changes.
unfoldable pub refresh : WaitGroup → Option WaitGroup
unfolding phase_of
refresh wg =
    let phase = phase_of wg.status.counter in
    if same_group_phase wg.status.phase phase
    then none
    else some (record wg { status = record wg.status { phase = phase } })

module _ {W : Type 0} (c : Client W) where
  unfoldable pub settle : WaitGroup → Action W Reconciled
  unfolding refresh
  settle wg = elim (refresh wg) [
    | none ↦ return stop
    | some changed ↦ do
      written ← c.wait_groups.status_update changed
      return (elim written [ err e ↦ fail e | ok _ ↦ stop ])
  ]

  unfoldable pub reconcile : ObjectKey → Action W Reconciled
  unfolding settle
  reconcile req = do
    found ← c.wait_groups.get req
    elim found [ err e ↦ return (not_found_or e) | ok wg ↦ settle wg ]
