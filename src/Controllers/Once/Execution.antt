-- ===== src/Controllers/Once/Execution.antt =====
-- What a `Reconcile` of controllers/once_controller.go may do to the record of the execution.
use konductor.Prelude.{◌≡◌, refl, ◌⊎◌, inl, inr, true, false, Option, some, arith}
use konductor.Api.Meta.{ObjectKey, key_of}
use konductor.Api.Errors.{ok}
use konductor.Api.Locks.{Once, OncePhase, is_unset_once}
use konductor.Client.{Client}
use konductor.Client.Server.{Serves}
use konductor.Controllers.Outcome.{stop}
use konductor.Controllers.Once.{is_outlived, revise, settle}

-- What `settle` has done to a record whose phase is set and whose TTL is not over, when it ends
-- with no error: nothing, or an update of the phase alone.
settle_cases :
    {W : Type 0} (c : Client W) (once : Once) (w w' : W)
    → is_unset_once once.status.phase ≡ false
    → is_outlived (c.clock w) once.meta once.spec.ttl ≡ false
    → settle c once w ≡ (stop, w')
    → (w' ≡ w)
      ⊎ ((once.status.executed ≡ true)
          × (c.onces.status_update
                (record once { status = record once.status { phase = OncePhase.executed } })
                w
              ≡ (ok tt, w')))
unfolding settle revise
settle_cases c once w w' set alive done = ground arith

-- Once a record is initialised and while its TTL runs, a `Reconcile` that ends with no error keeps
-- who executed it, and whether anybody did.
settle_keeps :
    {W : Type 0} (c : Client W) (stored : W → ObjectKey → Option Once)
    → Serves c.onces stored
    → (once : Once) (w w' : W) → stored w (key_of once.meta) ≡ some once
    → is_unset_once once.status.phase ≡ false
    → is_outlived (c.clock w) once.meta once.spec.ttl ≡ false
    → settle c once w ≡ (stop, w')
    → (after : Once) × (stored w' (key_of once.meta) ≡ some after)
      × (after.status.executed ≡ once.status.executed)
      × (after.status.executor ≡ once.status.executor)
      × (after.status.executed_at ≡ once.status.executed_at)
settle_keeps c stored serves once w w' held set alive done =
    elim (settle_cases c once w w' set alive done) [
      | inl e ↦ (once, rw e held, refl, refl, refl)
      | inr (executed, written) ↦
          let made = serves.update-ok _ w w' written in (_, made.is_now, refl, refl, refl)
    ]

-- A record with no phase yet is initialised as not executed, whatever it said.
initialize_resets :
    {W : Type 0} (c : Client W) (stored : W → ObjectKey → Option Once)
    → Serves c.onces stored
    → (once : Once) (w w' : W) → is_unset_once once.status.phase ≡ true
    → settle c once w ≡ (stop, w')
    → (after : Once) × (stored w' (key_of once.meta) ≡ some after)
      × (after.status.executed ≡ false)
      × (after.status.phase ≡ OncePhase.pending)
unfolding settle revise
initialize_resets c stored serves once w w' new done =
    let made =
      serves.update-ok
        (record once {
          status = record once.status { phase = OncePhase.pending; executed = false };
        })
        w w' (ground arith) in
    (_, made.is_now, refl, refl)
