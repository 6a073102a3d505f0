-- ===== src/Examples/Gates.antt =====
-- Waiting for the conditions of a gate.
use konductor.Prelude.{◌≡◌, refl, pos, true, false, none, some, is_none, List, [], ◌∷◌, arith}
use konductor.Api.Gates.{Gate, GatePhase}
use konductor.Memory
use konductor.Memory.World.{World, empty, named}
use konductor.Memory.Host.{host}
use konductor.Sdk.Options.{Setter, apply, with_timeout}
use konductor.Sdk.Gate
use konductor.Sdk.Gate.Conditions.{Ticks, Met, wait_for_conditions_ends, wait_for_conditions-Met}

-- A gate of which the first of two conditions is met.
abbrev half_open : Gate
half_open = record {
  meta = named "g";
  spec = record { conditions = []; timeout = none };
  status = record {
    phase = GatePhase.waiting;
    condition_statuses =
        record { type = "Barrier"; name = "b"; met = true; message = "" }
        ∷ (record { type = "Lease"; name = "l"; met = false; message = "" } ∷ []);
    opened_at = none;
  };
}

abbrev gate_world : World
gate_world = record empty { gates = some half_open }

abbrev one_second : List Setter
one_second = with_timeout (pos 1_000_000_000) ∷ []

host-Ticks : Ticks host
host-Ticks = record {
  read_later = λ k w. omega arith;
  sleep_later = λ d w e. omega arith;
  scaled = λ d. omega arith;
}

-- The lease is never met: the wait for both ends after three rounds at most.
wait_for_conditions_ends_example :
    is_none (Gate.wait_for_conditions host 3 "g" ("b" ∷ ("l" ∷ [])) one_second gate_world).0 ≡ false
unfolding apply with_timeout
wait_for_conditions_ends_example =
    wait_for_conditions_ends host "g" ("b" ∷ ("l" ∷ [])) one_second 999_999_999 2 gate_world
      host-Ticks refl (omega arith)

wait_for_conditions-Met_example : Met host "g" ("b" ∷ []) gate_world
unfolding Gate.wait_for_conditions Gate.rounds Gate.get_conditions Gate.all_met Gate.condition_map
    Memory.find
wait_for_conditions-Met_example =
    wait_for_conditions-Met host 1 "g" "b" [] one_second gate_world gate_world refl
