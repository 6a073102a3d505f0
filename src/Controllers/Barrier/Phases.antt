-- ===== src/Controllers/Barrier/Phases.antt =====
-- The phase that a `Reconcile` of controllers/barrier_controller.go gives a barrier.
use konductor.Prelude.{
  ◌≡◌, refl, ◌↔◌, ◌⊎◌, inl, inr, Bool-cases, is_none, Option, none, ℤ, pos, ◌≤ℤ◌, ◌<ℤ◌, ltb_ℤ, ◌-ℤ◌,
  true, false, some, List, length, int32, arith,
}
use konductor.Api.Meta.{Time, Duration, before, add, sub, minute}
use konductor.Api.Counters.{Barrier, BarrierPhase, Arrival}
use konductor.Api.Errors.{Result-cases, ok}
use konductor.Client.{Client}
use konductor.Controllers.Outcome.{Reconciled, stop}
use konductor.Controllers.Barrier.{
  required_arrivals, is_timed_out, evaluate, at_most, requeue_waiting, settle,
}

-- The number of arrivals that the server lists, as the int32 of the status.
abbrev pub counted : List Arrival → ℤ
counted arrivals = int32 (pos (length arrivals))

-- In time, a barrier is open exactly when as many have arrived as its quorum asks for, or as it
-- expects where it has no quorum, and waits otherwise; and it is stamped when it opens.
evaluate_in_time :
    (t : Time) (arrivals : List Arrival) (b : Barrier)
    → is_timed_out t b.meta b.spec.timeout ≡ false
    → let after = (evaluate t arrivals b).1 in
      ((after.status.phase ≡ BarrierPhase.opened) ↔ (required_arrivals b ≤ℤ counted arrivals))
      × ((after.status.phase ≡ BarrierPhase.waiting) ↔ (counted arrivals <ℤ required_arrivals b))
      × ((after.status.phase ≡ BarrierPhase.waiting) ⊎ (is_none after.status.opened_at ≡ false))
unfolding evaluate
evaluate_in_time t arrivals b h = ground arith

-- After its timeout, a barrier that lacks arrivals has failed, and any other keeps its phase.
evaluate_late :
    (t : Time) (arrivals : List Arrival) (b : Barrier)
    → is_timed_out t b.meta b.spec.timeout ≡ true
    → let after = (evaluate t arrivals b).1 in
      ((counted arrivals <ℤ required_arrivals b) × (after.status.phase ≡ BarrierPhase.failed))
      ⊎ ((required_arrivals b ≤ℤ counted arrivals) × (after.status.phase ≡ b.status.phase))
unfolding evaluate
evaluate_late t arrivals b h = ground arith

-- A second pass over the same arrivals, on the same side of the timeout, stores nothing.
evaluate_settled :
    (t u : Time) (arrivals : List Arrival) (b : Barrier)
    → is_timed_out t b.meta b.spec.timeout ≡ is_timed_out u b.meta b.spec.timeout
    → (evaluate u arrivals (evaluate t arrivals b).1).0 ≡ false
unfolding evaluate
evaluate_settled t u arrivals b h = ground arith

evaluate_stuck :
    (t : Time) (arrivals : List Arrival) (b : Barrier)
    → is_timed_out t b.meta b.spec.timeout ≡ true
    → b.status.phase ≡ BarrierPhase.waiting
    → required_arrivals b ≤ℤ counted arrivals
    → b.status.arrived ≡ counted arrivals
    → ((evaluate t arrivals b).0 ≡ false)
      × ((evaluate t arrivals b).1.status.phase ≡ BarrierPhase.waiting)
      × ((evaluate t arrivals b).1.spec.timeout ≡ b.spec.timeout)
      × ((evaluate t arrivals b).1.meta.creation_timestamp ≡ b.meta.creation_timestamp)
unfolding evaluate
evaluate_stuck t arrivals b over waits enough same = ground arith

late_requeue :
    (t u : Time) → before t u ≡ true → ltb_ℤ (pos 0) (at_most (pos minute) (sub t u)) ≡ false
unfolding before sub ◌-ℤ◌
late_requeue t u h = ground arith

requeue_over :
    {W : Type 0} (c : Client W) (b : Barrier) (timeout : Duration) (w : W)
    → before (add b.meta.creation_timestamp timeout) (c.clock w) ≡ true
    → requeue_waiting c b (some timeout) w ≡ (stop, w)
unfolding requeue_waiting
requeue_over c b timeout w over =
    ground (arith, late_requeue (add b.meta.creation_timestamp timeout) (c.clock w))

-- A barrier that still waits when its timeout is over, but has its arrivals, is never opened: a
-- `Reconcile` that reads it and the arrivals that it counts stores nothing, and does not ask to run
-- again.
pub settle_stuck :
    {W : Type 0} (c : Client W) (b : Barrier) (arrivals : List Arrival) (timeout : Duration) (w : W)
    → b.spec.timeout ≡ some timeout
    → before (add b.meta.creation_timestamp timeout) (c.clock w) ≡ true
    → b.status.phase ≡ BarrierPhase.waiting
    → required_arrivals b ≤ℤ counted arrivals
    → b.status.arrived ≡ counted arrivals
    → settle c b arrivals w ≡ (stop, w)
unfolding settle is_timed_out
settle_stuck c b arrivals timeout w limit over waits enough same =
    let b' = (evaluate (c.clock w) arrivals b).1 in
    ground (arith, evaluate_stuck (c.clock w) arrivals b, requeue_over c b' timeout w)

-- What a `Reconcile` that ends with no error, in time and with enough arrivals, has done: it stored
-- the barrier as open, or it was open already.
pub evaluate_open :
    (t : Time) (arrivals : List Arrival) (b : Barrier)
    → is_timed_out t b.meta b.spec.timeout ≡ false
    → required_arrivals b ≤ℤ counted arrivals
    → let (changed, after) = evaluate t arrivals b in
      (after.status.phase ≡ BarrierPhase.opened)
      × (after.meta ≡ b.meta)
      × ((changed ≡ false) → (b.status.phase ≡ BarrierPhase.opened))
unfolding evaluate
evaluate_open t arrivals b early enough = (ground arith, ground arith, λ same. ground arith)

requeue_waiting_world :
    {W : Type 0} (c : Client W) (b : Barrier) (timeout : Option Duration) (w : W)
    → (requeue_waiting c b timeout w).1 ≡ w
unfolding requeue_waiting
requeue_waiting_world c b none w = refl
requeue_waiting_world c b (some timeout) w = ground arith

pub settle_open :
    {W : Type 0} (c : Client W) (b : Barrier) (arrivals : List Arrival) (w w' : W)
    (out : Reconciled)
    → is_timed_out (c.clock w) b.meta b.spec.timeout ≡ false
    → required_arrivals b ≤ℤ counted arrivals
    → settle c b arrivals w ≡ (out, w')
    → out.error ≡ none
    → (c.barriers.status_update (evaluate (c.clock w) arrivals b).1 w ≡ (ok tt, w'))
      ⊎ ((w' ≡ w) × (b.status.phase ≡ BarrierPhase.opened))
unfolding settle
settle_open c b arrivals w w' out early enough e fine =
    let after = (evaluate (c.clock w) arrivals b).1 in
    let (opened, kept, before) = evaluate_open (c.clock w) arrivals b early enough in
    elim (Bool-cases (evaluate (c.clock w) arrivals b).0) [
      | inr same ↦
          inr (ground (arith, requeue_waiting_world c after after.spec.timeout w), before same)
      | inl changed ↦ elim (Result-cases (c.barriers.status_update after w).0) [
        | inl (x, refused) ↦ absurd (ground arith)
        | inr (_, written) ↦
            let v = (c.barriers.status_update after w).1 in
            inl (ground (arith, requeue_waiting_world c after after.spec.timeout v))
      ]
    ]
