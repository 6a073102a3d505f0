-- ===== src/Examples/Locks.antt =====
-- The mutex of the SDK and of the operator.
use konductor.Prelude.{
  is_blank, ◌+ℤ◌, [], ◌∷◌, false, ◌≡◌, refl, eq_of_some, subst, ℕ, zero, suc, ◌==◌, pos, true, none,
  some, if◌then◌else◌, arith,
}
use konductor.Api.Meta.{ObjectKey}
use konductor.Api.Locks.{MutexSpec, MutexStatus, Mutex, MutexPhase}
use konductor.Memory.{resource, stored, memory-Serves}
use konductor.Memory
use konductor.Memory.World.{World, empty, mutexes_lens, named}
use konductor.Memory.Host.{host, host-BacksOff, poll_up_to}
use konductor.Sdk.Host.{resolve_holder}
use konductor.Sdk.Options.{apply, with_holder}
use konductor.Sdk.Wait.{wait_for_condition, retry_with_backoff, attempt, back_off, backoff_of, poll}
use konductor.Sdk.Wait.Backoff.{calculate_backoff_steps}
use konductor.Sdk.Mutex
use konductor.Sdk.Mutex.Locking.{Locked, lock-Locked}
use konductor.Sdk.Mutex.{claim}
use konductor.Client.Race.{System, send, Reach, here, next, Inv, IsPast}
use konductor.Sdk.Mutex.Exclusion.{plan, lock}
use konductor.Client.Race.Serial.{log}
use konductor.Client.Race.Refinement.{Run}
use konductor.Sdk.Mutex.Exclusion.Refinement.{Moves, view, mutex_refines}
use konductor.Sdk.Mutex.Exclusion.Safety.{leaves, held_until_released}

abbrev free_mutex : Mutex
free_mutex = record {
  meta = named "m";
  spec = record { ttl = none };
  status = record { holder = ""; locked_at = none; expires_at = none; phase = MutexPhase.unset };
}

-- The mutex after the first update, by which "a" has locked it.
abbrev held_mutex : Mutex
held_mutex = record free_mutex {
  meta = record (named "m") { resource_version = 2 };
  status = record {
    holder = "a";
    locked_at = some (pos 5);
    expires_at = none;
    phase = MutexPhase.locked;
  };
}

abbrev m_key : ObjectKey
m_key = record { namespace = "default"; name = "m" }

-- "a" holds the mutex; process 1 has read it before.
abbrev raced : System World MutexSpec MutexStatus
raced = record {
  world = record empty { mutexes = some held_mutex };
  seen = λ i. if i == 1 then some free_mutex else none;
}

free-IsPast : IsPast m_key free_mutex held_mutex
free-IsPast = record { keyed = refl; not_newer = omega arith; same = λ e. absurd (omega arith) }

raced-IsPast : (i : ℕ) (m : Mutex) → raced.seen i ≡ some m → IsPast m_key m held_mutex
raced-IsPast zero m e = absurd (cc)
raced-IsPast (suc zero) m e = subst (λ x. IsPast m_key x held_mutex) (eq_of_some e) free-IsPast
raced-IsPast (suc (suc i)) m e = absurd (ground arith)

raced-Inv : Inv (stored mutexes_lens) m_key raced held_mutex
unfolding Memory.find
raced-Inv = record { held = refl; past = raced-IsPast }

-- Process 1 sends the lock that it computed from what it has read: the server refuses it.
late_lock : Reach plan (resource mutexes_lens) m_key (leaves held_mutex.status) raced raced
unfolding leaves plan claim Memory.write
late_lock = next here (send 1 (lock (pos 9) "b") refl refl refl refl)

held_until_released_example :
    (o : Mutex) × (stored mutexes_lens raced.world m_key ≡ some o) × (o.status ≡ held_mutex.status)
held_until_released_example =
    held_until_released (resource mutexes_lens) (stored mutexes_lens) m_key
      (memory-Serves mutexes_lens) raced-Inv (record { locked = refl; named = refl }) late_lock

-- A world in which the mutex is free and process 0 has read it.
abbrev idle : System World MutexSpec MutexStatus
idle = record {
  world = record empty { mutexes = some free_mutex };
  seen = λ i. if i == 0 then some free_mutex else none;
}

idle-IsPast : (i : ℕ) (m : Mutex) → idle.seen i ≡ some m → IsPast m_key m free_mutex
idle-IsPast zero m e =
    subst (λ x. IsPast m_key x free_mutex) (eq_of_some e)
      (record { keyed = refl; not_newer = omega arith; same = λ _. refl })
idle-IsPast (suc i) m e = absurd (ground arith)

idle-Inv : Inv (stored mutexes_lens) m_key idle free_mutex
unfolding Memory.find
idle-Inv = record { held = refl; past = idle-IsPast }

-- Process 0 has read the mutex that "a" holds.
abbrev owned : System World MutexSpec MutexStatus
owned = record {
  world = record empty { mutexes = some held_mutex };
  seen = λ i. if i == 0 then some held_mutex else none;
}

owned-IsPast : (i : ℕ) (m : Mutex) → owned.seen i ≡ some m → IsPast m_key m held_mutex
owned-IsPast zero m e =
    subst (λ x. IsPast m_key x held_mutex) (eq_of_some e)
      (record { keyed = refl; not_newer = omega arith; same = λ _. refl })
owned-IsPast (suc i) m e = absurd (ground arith)

-- "a" locks the mutex while it is free; a second `Lock` from the same read is refused.
abbrev locked_once : System World MutexSpec MutexStatus
locked_once = record { world = record empty { mutexes = some held_mutex }; seen = idle.seen }

two_locks : Reach plan (resource mutexes_lens) m_key (λ _. true) idle locked_once
unfolding plan claim Memory.write
two_locks =
    next (next here (send 0 (lock (pos 5) "a") refl refl refl refl))
      (send 0 (lock (pos 9) "b") refl refl refl refl)

mutex_refines_example :
    (o : Mutex) × (stored mutexes_lens locked_once.world m_key ≡ some o)
    × Run (Moves none) none (log two_locks) (view o.status)
unfolding view
mutex_refines_example =
    mutex_refines (resource mutexes_lens) (stored mutexes_lens) m_key (memory-Serves mutexes_lens)
      idle-Inv two_locks

-- "a" locks the mutex of the memory.
abbrev locked_world : World
locked_world = record empty {
  mutexes =
      some (record held_mutex { status = record held_mutex.status { locked_at = some (pos 0) } });
}

lock-Locked_example :
    (is_blank "m" ≡ false)
    × Locked host "m" "a" locked_world
    × (◌≡◌ {A = Mutex.Handle}
        (record { name = "m"; holder = "a" })
        (record { name = "m"; holder = "a" }))
unfolding Mutex.lock Mutex.acquire Mutex.lock_once Mutex.confirm claim Memory.find Memory.write
    wait_for_condition retry_with_backoff attempt back_off backoff_of calculate_backoff_steps poll
    poll_up_to apply with_holder resolve_holder ◌+ℤ◌
lock-Locked_example =
    lock-Locked host "m" (with_holder "a" ∷ []) (record empty { mutexes = some free_mutex })
      locked_world (record { name = "m"; holder = "a" }) host-BacksOff refl
