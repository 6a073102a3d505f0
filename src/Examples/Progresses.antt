-- ===== src/Examples/Progresses.antt =====
-- Calls that succeed on a host where nothing else happens.
use konductor.Prelude.{◌≡◌, refl, pos, true, ◌∷◌, [], none, some, false, arith}
use konductor.Api.Errors.{Error, ok, err, wrap}
use konductor.Api.Locks.{Mutex, MutexPhase, RwMutexPhase, OncePhase}
use konductor.Api.Counters.{WaitGroupPhase}
use konductor.Memory
use konductor.Memory.{stored}
use konductor.Memory.World.{
  World, empty, named, mutexes_lens, rw_mutexes_lens, onces_lens, wait_groups_lens,
}
use konductor.Memory.Availability.{
  mutexes-Undisturbed, rw_mutexes-Undisturbed, onces-Undisturbed, wait_groups-Undisturbed,
}
use konductor.Memory.Host.{host}
use konductor.Sdk.Host.{key, resolve_holder}
use konductor.Sdk.Options.{apply, with_holder}
use konductor.Sdk.Mutex
use konductor.Sdk.Once
use konductor.Sdk.Once.Progress.{HasExecuted, do_twice, do_again}
use konductor.Sdk.RwMutex
use konductor.Sdk.RwMutex.Progress.{HasReaders, unlock-rlock}
use konductor.Sdk.WaitGroup
use konductor.Sdk.WaitGroup.Progress.{HasCounter, Dones, add_done_wait}
use konductor.Sdk.Mutex.Progress.{LockedBy, lock_free}
use konductor.Sdk.Mutex.Scoped.{IsFree, with_lock_uncontended}

abbrev free_mutex : Mutex
free_mutex = record {
  meta = named "m";
  spec = record { ttl = none };
  status = record { holder = ""; locked_at = none; expires_at = none; phase = MutexPhase.unset };
}

abbrev start : World
start = record empty { mutexes = some free_mutex }

lock_free_example :
    (w : World) × (Mutex.lock host "m" (with_holder "a" ∷ []) start
      ≡ (ok (record { name = "m"; holder = "a" }), w))
    × LockedBy (stored mutexes_lens) w (key host "m") "a"
unfolding Memory.find apply with_holder resolve_holder
lock_free_example =
    lock_free host (stored mutexes_lens) mutexes-Undisturbed "m" (with_holder "a" ∷ []) free_mutex
      start refl (omega arith) refl refl

with_lock_uncontended_example :
    (u : World) × LockedBy (stored mutexes_lens) u (key host "m") "a"
    × ((v : World) × (Mutex.with_lock host "m" (λ w. (ok tt, w)) (with_holder "a" ∷ []) start
          ≡ (ok tt, v))
        × IsFree (stored mutexes_lens) v (key host "m"))
unfolding Memory.find apply with_holder resolve_holder
with_lock_uncontended_example =
    with_lock_uncontended host (stored mutexes_lens) mutexes-Undisturbed "m" (λ w. (ok tt, w))
      (with_holder "a" ∷ []) free_mutex start refl refl (omega arith) refl refl (λ u. refl)

abbrev unmarked : World
unmarked = record empty {
  onces = some (record {
    meta = named "o";
    spec = record { ttl = none };
    status = record {
      executed = false;
      executor = "";
      executed_at = none;
      phase = OncePhase.pending;
    };
  });
}

do_twice_example :
    (u : World) × HasExecuted (stored onces_lens) u (key host "o") true
    × (Once.do_once host "o" (λ w. (ok tt, w)) (with_holder "a" ∷ []) unmarked
        ≡ (record { executed = true; error = none }, u))
    × (Once.do_once host "o" (λ w. (err Error.not_found, w)) [] u
        ≡ (record { executed = false; error = none }, u))
unfolding Memory.find
do_twice_example =
    do_twice host (stored onces_lens) onces-Undisturbed "o" (λ w. (ok tt, w))
      (λ w. (err Error.not_found, w)) (with_holder "a" ∷ []) [] unmarked (λ u. refl) (λ u. refl)
      (_, refl, refl)

do_again_example :
    (v : World) × (Once.do_once host "o"
        (λ w. (err Error.not_found, w))
        (with_holder "a" ∷ [])
        unmarked
      ≡ (record { executed = true; error = some (wrap "execution failed" Error.not_found) }, v))
    × HasExecuted (stored onces_lens) v (key host "o") false
    × ((u : World) × (Once.do_once host "o" (λ w. (ok tt, w)) [] v
          ≡ (record { executed = true; error = none }, u)))
unfolding Memory.find
do_again_example =
    do_again host (stored onces_lens) onces-Undisturbed "o" (λ w. (err Error.not_found, w))
      (λ w. (ok tt, w)) (with_holder "a" ∷ []) [] unmarked Error.not_found (λ u. refl) (λ u. refl)
      (λ u. refl) (_, refl, refl)

abbrev idle : World
idle = record empty {
  wait_groups = some (record {
    meta = named "g";
    spec = record { ttl = none };
    status = record { counter = pos 0; phase = WaitGroupPhase.done };
  });
}

add_done_wait_example :
    (u : World) × (WaitGroup.add host "g" (pos 3) idle ≡ (ok tt, u))
    × HasCounter (stored wait_groups_lens) u (key host "g") (pos 3)
    × ((v : World) × Dones host "g" 3 u v
        × HasCounter (stored wait_groups_lens) v (key host "g") (pos 0)
        × ((w : World) × (WaitGroup.wait host "g" [] v ≡ (ok tt, w))))
unfolding Memory.find apply
add_done_wait_example =
    add_done_wait host (stored wait_groups_lens) wait_groups-Undisturbed "g" 3 [] idle (omega arith)
      (omega arith) (_, refl, refl)

-- An rwmutex with a reader.
abbrev read_by_b : World
read_by_b = record empty {
  rw_mutexes = some (record {
    meta = named "rw";
    spec = record { ttl = none };
    status = record {
      write_holder = "";
      read_holders = "b" ∷ [];
      locked_at = some (pos 1);
      expires_at = none;
      phase = RwMutexPhase.read_locked;
    };
  });
}

unlock-rlock_example :
    (u : World) × (RwMutex.rlock host "rw" (with_holder "a" ∷ []) read_by_b
      ≡ (ok (record { name = "rw"; holder = "a"; is_read = true }, ok tt), u))
    × HasReaders (stored rw_mutexes_lens) u (key host "rw") ("b" ∷ "a" ∷ [])
    × ((v : World) × (RwMutex.unlock host "rw" "a" u ≡ (ok tt, v))
        × HasReaders (stored rw_mutexes_lens) v (key host "rw") ("b" ∷ []))
unfolding Memory.find apply with_holder resolve_holder
unlock-rlock_example =
    unlock-rlock host (stored rw_mutexes_lens) rw_mutexes-Undisturbed "rw" (with_holder "a" ∷ [])
      ("b" ∷ []) read_by_b (omega arith) refl (_, refl, refl, refl)
