-- ===== src/Examples/Barriers.antt =====
-- Passing a barrier and arriving at another one, and the arrival of the command.
use konductor.Prelude.{◌≡◌, refl, ◌+ℤ◌, pos, true, none, some, [], ◌∷◌, return, arith}
use konductor.Api.Errors.{ok, panicked}
use konductor.Api.Counters.{Barrier, BarrierPhase}
use konductor.Memory
use konductor.Memory.World.{World, client, empty, named}
use konductor.Memory.Host.{host, host-BacksOff, poll_up_to}
use konductor.Sdk.Host.{resolve_holder}
use konductor.Sdk.Options.{apply, with_holder}
use konductor.Sdk.Wait.{wait_for_condition, back_off, backoff_of, poll}
use konductor.Sdk.Wait.Backoff.{calculate_backoff_steps}
use konductor.Sdk.Client.{new_from_client}
use konductor.Sdk.Barrier
use konductor.Sdk.Barrier.Waiting.{Passed, wait_and_arrive_in_order}
use konductor.Cli.Output.{exit_with}
use konductor.Cli.Barrier as Command
use konductor.Cli.Barrier.Update.{arrive_update_panics}
use konductor.Examples.Semaphores.{command}

abbrev opened : Barrier
opened = record {
  meta = named "b";
  spec = record { expected = pos 1; timeout = none; quorum = none };
  status = record { arrived = pos 1; phase = BarrierPhase.opened; arrivals = []; opened_at = none };
}

abbrev open_world : World
open_world = record empty { barriers = some opened }

abbrev arrived_world : World
arrived_world = record open_world { arrivals = some (Barrier.new_arrival host opened "b" "a") }

wait_and_arrive_in_order_example :
    (u v : World) × Passed host "b" u
    × (return {W = World} (ok tt) u ≡ (ok tt, v))
    × (Barrier.arrive host "b" (with_holder "a" ∷ []) v ≡ (ok tt, arrived_world))
unfolding Barrier.wait_and_arrive Barrier.wait Barrier.conclude Barrier.arrive wait_for_condition
    back_off backoff_of calculate_backoff_steps poll poll_up_to Memory.find apply with_holder
    resolve_holder ◌+ℤ◌
wait_and_arrive_in_order_example =
    wait_and_arrive_in_order host "b" "b" (return (ok tt)) (with_holder "a" ∷ []) open_world
      arrived_world host-BacksOff refl

arrive_update_panics_example :
    Command.arrive command "a" true (pos 0) "b" none open_world
    ≡ (exit_with panicked, arrived_world)
unfolding Barrier.arrive Memory.find apply with_holder resolve_holder new_from_client ◌+ℤ◌
arrive_update_panics_example =
    arrive_update_panics command client "a" "b" none (pos 0) open_world arrived_world arrived_world
      refl refl refl (omega arith)
