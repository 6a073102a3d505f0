-- ===== src/Sdk/RwMutex/RoundTrip.antt =====
-- `runlock` after `RLock` of sdk/go/rwmutex/rwmutex.go.
use konductor.Prelude.{
  ◌≡◌, refl, subst, ◌==◌, true, false, String, str_eq, eq_iff, none, List, [], ◌∷◌, ◌++◌, length,
  any, if◌then◌else◌, arith,
}
use konductor.Api.Meta.{Time}
use konductor.Api.Errors.{ok}
use konductor.Api.Locks.{RwMutex, RwMutexStatus, RwMutexPhase}
use konductor.Sdk.RwMutex.{claim_read, release_read, others, first_of, expiry}

pub others_of_absent :
    (holder : String) (hs : List String)
    → any (λ x. str_eq x holder) hs ≡ false
    → others holder (hs ++ (holder ∷ [])) ≡ hs
others_of_absent holder [] absent = ground (arith, eq_iff holder holder)
others_of_absent holder (x ∷ hs) absent = ground (arith, others_of_absent holder hs)

pub any_last :
    (holder : String) (hs : List String) → any (λ x. str_eq x holder) (hs ++ (holder ∷ [])) ≡ true
any_last holder [] = ground (arith, eq_iff holder holder)
any_last holder (x ∷ hs) = ground (arith, any_last holder hs)

-- The rwmutex after the read lock is given, and its status after it is given back.
abbrev joined : Time → String → RwMutex → RwMutex
joined t holder rw = record rw {
  status = record rw.status {
    phase = RwMutexPhase.read_locked;
    read_holders = rw.status.read_holders ++ (holder ∷ []);
    locked_at = first_of t rw.status.locked_at;
    expires_at = expiry t rw.spec.ttl rw.status.expires_at;
  };
}

abbrev back : RwMutex → RwMutexStatus → RwMutexStatus
back rw s =
    let rest = rw.status.read_holders in
    if length rest == 0
    then record s {
      read_holders = rest;
      phase = RwMutexPhase.unlocked;
      locked_at = none;
      expires_at = none;
    }
    else record s { read_holders = rest }

claim_read_joins :
    (t : Time) (holder : String) (rw rw' : RwMutex)
    → claim_read t holder rw ≡ ok rw'
    → joined t holder rw ≡ rw'
unfolding claim_read
claim_read_joins t holder rw rw' e = ground arith

back-joined :
    (t : Time) (holder : String) (m : RwMutex)
    → any (λ x. str_eq x holder) m.status.read_holders ≡ false
    → release_read holder (joined t holder m)
      ≡ ok (record (joined t holder m) { status = back m (joined t holder m).status })
unfolding release_read
back-joined t holder m absent =
    let hs = m.status.read_holders in
    rw (any_last holder hs, others_of_absent holder hs absent) refl

-- What the unlock of a reader leaves of an rwmutex: the readers, who are still there.
pub record Restored (holder : String) (rw rw' : RwMutex) : Type 0 where
  pub released : RwMutex
  pub accepted : release_read holder rw' ≡ ok released
  pub readers : released.status.read_holders ≡ rw.status.read_holders
  pub writer : released.status.write_holder ≡ rw.status.write_holder
  pub phase : released.status.phase ≡ (
      if length rw.status.read_holders == 0
      then RwMutexPhase.unlocked
      else RwMutexPhase.read_locked)
  pub spec : released.spec ≡ rw.spec

-- A read lock that a new reader takes and gives back restores the readers in their order, with no
-- writer; the phase is unlocked exactly when no reader is left.
release_read-claim_read :
    (t : Time) (holder : String) (rw rw' : RwMutex)
    → any (λ x. str_eq x holder) rw.status.read_holders ≡ false
    → claim_read t holder rw ≡ ok rw'
    → Restored holder rw rw'
release_read-claim_read t holder rw rw' absent e =
    subst (Restored holder rw) (claim_read_joins t holder rw rw' e) (record {
      released = record (joined t holder rw) { status = back rw (joined t holder rw).status };
      accepted = back-joined t holder rw absent;
      readers = ground arith;
      writer = ground arith;
      phase = ground arith;
      spec = refl;
    })
