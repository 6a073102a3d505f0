-- ===== src/Examples/Executions.antt =====
-- A once that one process executes while another one tries to, and the locks of the rwmutex.
use konductor.Prelude.{◌≡◌, refl, ◌≤◌, ◌+◌, ◌+ℤ◌, pos, true, none, some, [], ◌∷◌, false}
use konductor.Sdk.Once
use konductor.Api.Locks.{Once, RwMutex, RwMutexPhase}
use konductor.Memory
use konductor.Memory.{resource, stored, memory-Serves}
use konductor.Memory.World.{World, empty, onces_lens, named}
use konductor.Memory.Host.{host, host-BacksOff, poll_up_to}
use konductor.Client.Race.{send, Reach, here, next}
use konductor.Client.Race.Serial.{log}
use konductor.Client.Race.Refinement.{Run}
use konductor.Sdk.Host.{resolve_holder}
use konductor.Sdk.Options.{apply, with_holder}
use konductor.Sdk.Wait.{wait_for_condition, retry_with_backoff, attempt, back_off, backoff_of, poll}
use konductor.Sdk.Wait.Backoff.{calculate_backoff_steps}
use konductor.Sdk.Once.AtMostOnce
use konductor.Sdk.Once.AtMostOnce.Refinement.{
  Moves, view, executions, rollbacks, is_taken, once_refines, executions_bounded,
}
use konductor.Sdk.RwMutex
use konductor.Sdk.RwMutex.Locking.{Taken, Joined, lock-Taken, rlock-Joined}
use konductor.Examples.Races.{just_read, just_read-Inv, x_key}
use konductor.Examples.Counts.{pending_once, done_once, with_once}

-- Both marks come from the same read, and the server accepts one of them.
two_marks :
    Reach AtMostOnce.plan
      (resource onces_lens)
      x_key
      (λ _. true)
      (just_read (with_once pending_once) pending_once)
      (record { world = with_once done_once; seen = (just_read empty pending_once).seen })
unfolding AtMostOnce.plan Once.claim Memory.write
two_marks =
    next (next here (send 0 (AtMostOnce.execute (pos 9) "a") refl refl refl refl))
      (send 0 (AtMostOnce.execute (pos 10) "b") refl refl refl refl)

once_refines_example :
    (o : Once) × (stored onces_lens (with_once done_once) x_key ≡ some o)
    × Run Moves none (log two_marks) (view o.status)
unfolding view Memory.find
once_refines_example =
    once_refines (resource onces_lens) (stored onces_lens) x_key (memory-Serves onces_lens)
      (just_read-Inv (stored onces_lens) x_key (with_once pending_once) pending_once refl refl)
      two_marks

executions_bounded_example :
    (o : Once) × (stored onces_lens (with_once done_once) x_key ≡ some o)
    × (executions (log two_marks) + is_taken none
        ≤ rollbacks (log two_marks) + is_taken (view o.status))
unfolding view Memory.find
executions_bounded_example =
    executions_bounded (resource onces_lens) (stored onces_lens) x_key (memory-Serves onces_lens)
      (just_read-Inv (stored onces_lens) x_key (with_once pending_once) pending_once refl refl)
      two_marks

abbrev free_rw : RwMutex
free_rw = record {
  meta = named "x";
  spec = record { ttl = none };
  status = record {
    write_holder = "";
    read_holders = [];
    locked_at = none;
    expires_at = none;
    phase = RwMutexPhase.unset;
  };
}

abbrev with_rw : RwMutex → World
with_rw rw = record empty { rw_mutexes = some rw }

abbrev taken_rw : RwMutex
taken_rw = record free_rw {
  meta = record (named "x") { resource_version = 2 };
  status = record {
    write_holder = "a";
    read_holders = [];
    locked_at = some (pos 0);
    expires_at = none;
    phase = RwMutexPhase.write_locked;
  };
}

abbrev joined_rw : RwMutex
joined_rw = record free_rw {
  meta = record (named "x") { resource_version = 2 };
  status = record {
    write_holder = "";
    read_holders = "a" ∷ [];
    locked_at = some (pos 0);
    expires_at = none;
    phase = RwMutexPhase.read_locked;
  };
}

lock-Taken_example :
    Taken host "x" "a" (with_rw taken_rw)
    × (◌≡◌ {A = RwMutex.Handle}
        (record { name = "x"; holder = "a"; is_read = false })
        (record { name = "x"; holder = "a"; is_read = false }))
unfolding RwMutex.lock RwMutex.change_once RwMutex.claim_write Memory.find Memory.write
    retry_with_backoff attempt back_off backoff_of calculate_backoff_steps poll_up_to apply
    with_holder resolve_holder
lock-Taken_example =
    lock-Taken host "x" (with_holder "a" ∷ []) (with_rw free_rw) (with_rw taken_rw)
      (record { name = "x"; holder = "a"; is_read = false }) host-BacksOff refl

rlock-Joined_example :
    Joined host "x" "a" (with_rw joined_rw)
    × (◌≡◌ {A = RwMutex.Handle}
        (record { name = "x"; holder = "a"; is_read = true })
        (record { name = "x"; holder = "a"; is_read = true }))
unfolding RwMutex.rlock RwMutex.change_once RwMutex.claim_read Memory.find Memory.write
    wait_for_condition retry_with_backoff attempt back_off backoff_of calculate_backoff_steps poll
    poll_up_to apply with_holder resolve_holder ◌+ℤ◌
rlock-Joined_example =
    rlock-Joined host "x" (with_holder "a" ∷ []) (with_rw free_rw) (with_rw joined_rw)
      (record { name = "x"; holder = "a"; is_read = true }) host-BacksOff refl
