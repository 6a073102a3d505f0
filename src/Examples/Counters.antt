-- ===== src/Examples/Counters.antt =====
-- The reconcilers of the barrier and of the semaphore.
use konductor.Prelude.{◌≡◌, refl, ℕ, pos, ◌+ℤ◌, int32, none, some, List, [], ◌∷◌, String, arith}
use konductor.Api.Meta.{before, add}
use konductor.Api.Counters.{Semaphore, SemaphorePhase, Barrier, BarrierPhase, Arrival, ArrivalPhase}
use konductor.Memory.World.{empty, client, named}
use konductor.Controllers.Outcome.{stop}
use konductor.Controllers.Barrier
use konductor.Controllers.Barrier.Phases.{settle_stuck}

-- A barrier that expects two, created at 0 with a timeout of 50.
abbrev barrier : ℕ → BarrierPhase → Barrier
barrier arrived phase = record {
  meta = named "b";
  spec = record { expected = pos 2; timeout = some (pos 50); quorum = none };
  status = record { arrived = pos arrived; phase = phase; arrivals = []; opened_at = none };
}

abbrev arrival : String → Arrival
arrival holder = record {
  meta = named holder;
  spec = record { barrier = "b"; holder = holder };
  status = record { phase = ArrivalPhase.unset; arrived_at = none };
}

abbrev two_arrivals : List Arrival
two_arrivals = arrival "a" ∷ arrival "b" ∷ []

-- Both arrived in time, and the operator looked only at 60.
settle_stuck_example :
    Barrier.settle client
      (barrier 2 BarrierPhase.waiting)
      two_arrivals
      (record empty { clock = pos 60 })
    ≡ (stop, record empty { clock = pos 60 })
unfolding before add ◌+ℤ◌ int32
settle_stuck_example =
    settle_stuck client (barrier 2 BarrierPhase.waiting) two_arrivals (pos 50)
      (record empty { clock = pos 60 }) refl refl refl (omega arith) refl

abbrev semaphore : ℕ → Semaphore
semaphore permits = record {
  meta = named "s";
  spec = record { permits = pos permits; ttl = none };
  status = record { in_use = pos 0; available = pos permits; phase = SemaphorePhase.ready };
}
