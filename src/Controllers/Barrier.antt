-- ===== src/Controllers/Barrier.antt =====
-- controllers/barrier_controller.go
pub mod Phases
use konductor.Prelude.{
  ℤ, pos, ltb_ℤ, leb_ℤ, eqb_ℤ, int32, Bool, true, false, not, ◌||◌, Option, none, some, List, [],
  ◌∷◌, map, length, Action, return, ◌>>=◌, if◌then◌else◌,
}
use konductor.Api.Meta.{Time, Duration, ObjectKey, ObjectMeta, add, before, sub, minute}
use konductor.Api.Errors.{ok, err}
use konductor.Api.Counters.{Barrier, BarrierPhase, Arrival, same_barrier_phase}
use konductor.Client.{Client, now}
use konductor.Controllers.Outcome.{Reconciled, stop, fail, requeue_in, not_found_or}

-- `Status.Arrived` and `Status.Arrivals` from the arrivals that the server lists.
unfoldable pub count_arrivals : List Arrival → Barrier → Barrier
count_arrivals arrivals b = record b {
  status = record b.status {
    arrived = int32 (pos (length arrivals));
    arrivals = map (λ a. a.spec.holder) arrivals;
  };
}

abbrev pub or_expected : Option ℤ → ℤ → ℤ
or_expected none expected = expected
or_expected (some quorum) expected = quorum

abbrev pub required_arrivals : Barrier → ℤ
required_arrivals b = or_expected b.spec.quorum b.spec.expected

unfoldable pub is_timed_out : Time → ObjectMeta → Option Duration → Bool
is_timed_out t m none = false
is_timed_out t m (some timeout) = before (add m.creation_timestamp timeout) t

abbrev pub or_now : Time → Option Time → Option Time
or_now t none = some t
or_now t (some u) = some u

-- The new phase, and the barrier with `OpenedAt` as that branch leaves it.
unfoldable pub decide : Time → Barrier → BarrierPhase × Barrier
decide t b =
    if is_timed_out t b.meta b.spec.timeout
    then (
      if ltb_ℤ b.status.arrived (required_arrivals b) then BarrierPhase.failed else b.status.phase,
      b,
    )
    else if leb_ℤ (required_arrivals b) b.status.arrived
    then (
      BarrierPhase.opened,
      record b { status = record b.status { opened_at = or_now t b.status.opened_at } },
    )
    else (BarrierPhase.waiting, b)

-- The barrier as the reconciler means to store it, and whether it stores it.
unfoldable pub evaluate : Time → List Arrival → Barrier → Bool × Barrier
unfolding decide count_arrivals
evaluate t arrivals b =
    let (phase, b') = decide t (count_arrivals arrivals b) in
    (
      not (same_barrier_phase b.status.phase phase)
          || not (eqb_ℤ b.status.arrived b'.status.arrived),
      record b' { status = record b'.status { phase = phase } },
    )

abbrev pub at_most : Duration → Duration → Duration
at_most limit d = if ltb_ℤ limit d then limit else d

abbrev pub is_waiting : BarrierPhase → Bool
is_waiting BarrierPhase.waiting = true
is_waiting _ = false

module _ {W : Type 0} (c : Client W) where
  -- A waiting barrier with a timeout comes back when that is over, or in a minute.
  unfoldable pub requeue_waiting : Barrier → Option Duration → Action W Reconciled
  requeue_waiting b none = return stop
  requeue_waiting b (some timeout) =
      if is_waiting b.status.phase
      then (do
        t ← now c
        let after = at_most (pos minute) (sub (add b.meta.creation_timestamp timeout) t)
        return (if ltb_ℤ (pos 0) after then requeue_in after else stop))
      else return stop

  unfoldable pub settle : Barrier → List Arrival → Action W Reconciled
  settle barrier arrivals = do
    t ← now c
    let (changed, b) = evaluate t arrivals barrier
    if changed
        then (do
          written ← c.barriers.status_update b
          elim written [ err e ↦ return (fail e) | ok _ ↦ requeue_waiting b b.spec.timeout ])
        else requeue_waiting b b.spec.timeout

  unfoldable pub reconcile : ObjectKey → Action W Reconciled
  unfolding settle
  reconcile req = do
    found ← c.barriers.get req
    elim found [
      | err e ↦ return (not_found_or e)
      | ok barrier ↦ do
        listed ← c.arrivals.list req.namespace (("barrier", barrier.meta.name) ∷ [])
        elim listed [ err e ↦ return (fail e) | ok arrivals ↦ settle barrier arrivals ]
    ]
