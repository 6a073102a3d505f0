-- ===== src/Controllers/WaitGroup/Phases.antt =====
-- The phase that a `Reconcile` of controllers/waitgroup_controller.go leaves.
use konductor.Prelude.{◌≡◌, ◌↔◌, ◌⊎◌, inl, inr, ℤ, pos, ◌≤ℤ◌, Option, some, true, arith}
use konductor.Api.Meta.{ObjectKey, key_of}
use konductor.Api.Errors.{ok}
use konductor.Api.Counters.{WaitGroup, WaitGroupPhase, WaitGroupStatus, same_group_phase}
use konductor.Client.{Client}
use konductor.Client.Server.{Serves}
use konductor.Controllers.Outcome.{stop}
use konductor.Controllers.WaitGroup.{phase_of, refresh, settle}

-- The phase is `Done` exactly when the counter is not positive.
abbrev pub PhaseMatches : WaitGroupStatus → Type 0
PhaseMatches s = (s.phase ≡ WaitGroupPhase.done) ↔ (s.counter ≤ℤ pos 0)

phase_of_matches : (n : ℤ) → (phase_of n ≡ WaitGroupPhase.done) ↔ (n ≤ℤ pos 0)
unfolding phase_of
phase_of_matches n = ground arith

same_group_phase_sound : (p q : WaitGroupPhase) → same_group_phase p q ≡ true → p ≡ q
same_group_phase_sound p q h = ground arith

-- What `settle` has done when it returns no error.
settle_cases :
    {W : Type 0} (c : Client W) (wg : WaitGroup) (w w' : W)
    → settle c wg w ≡ (stop, w')
    → ((same_group_phase wg.status.phase (phase_of wg.status.counter) ≡ true) × (w' ≡ w))
      ⊎ (c.wait_groups.status_update
            (record wg { status = record wg.status { phase = phase_of wg.status.counter } })
            w
          ≡ (ok tt, w'))
unfolding settle refresh
settle_cases c wg w w' done = ground arith

-- After a `Reconcile` of a stored wait group that ends with no error, the phase that is stored
-- matches the counter that is stored.
settle_matches :
    {W : Type 0} (c : Client W) (stored : W → ObjectKey → Option WaitGroup)
    → Serves c.wait_groups stored
    → (wg : WaitGroup) (w w' : W) → stored w (key_of wg.meta) ≡ some wg
    → settle c wg w ≡ (stop, w')
    → (after : WaitGroup) × (stored w' (key_of wg.meta) ≡ some after) × PhaseMatches after.status
settle_matches c stored serves wg w w' held done = elim (settle_cases c wg w w' done) [
  | inl (same, e) ↦
      (wg, rw e held, rw (same_group_phase_sound _ _ same) (phase_of_matches wg.status.counter))
  | inr written ↦
      let made = serves.update-ok _ w w' written in
      (_, made.is_now, phase_of_matches wg.status.counter)
]
