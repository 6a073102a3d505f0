-- ===== src/Controllers/RwMutex/Consistency.antt =====
-- The phase that a `Reconcile` of controllers/rwmutex_controller.go derives from the holders.
use konductor.Prelude.{◌≡◌, ◌↔◌, ◌==◌, length, Bool, true, false, is_blank, arith}
use konductor.Api.Meta.{Time}
use konductor.Api.Locks.{RwMutexStatus, RwMutexPhase}
use konductor.Controllers.Mutex.{is_expired}
use konductor.Controllers.RwMutex.{expire, match_phase, refresh}

-- The phase says who holds the lock: nobody, a writer, or readers and no writer.
pub record Describes (s : RwMutexStatus) : Type 0 where
  pub unlocked_iff :
      (s.phase ≡ RwMutexPhase.unlocked)
      ↔ ((is_blank s.write_holder ≡ true) × ((length s.read_holders == 0) ≡ true))
  pub write_locked_iff : (s.phase ≡ RwMutexPhase.write_locked) ↔ (is_blank s.write_holder ≡ false)
  pub read_locked_iff :
      (s.phase ≡ RwMutexPhase.read_locked)
      ↔ ((is_blank s.write_holder ≡ true) × ((length s.read_holders == 0) ≡ false))

match_phase-Describes : (u : RwMutexStatus × Bool) → Describes (match_phase u).0
unfolding match_phase
match_phase-Describes (s, updated) = ground arith

-- After the two checks the phase describes the holders, whatever the status was before.
refresh-Describes : (t : Time) (s : RwMutexStatus) → Describes (refresh t s).0
unfolding refresh
refresh-Describes t s = match_phase-Describes (expire t s)

-- A lock whose phase describes its holders, and whose TTL is not over, is left alone.
refresh_described :
    (t : Time) (s : RwMutexStatus)
    → Describes s
    → is_expired s.expires_at t ≡ false
    → refresh t s ≡ (s, false)
unfolding refresh
refresh_described t s d h = ground arith
