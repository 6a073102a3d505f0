-- ===== src/Api/Locks.antt =====
-- api/v1/mutex_types.go, rwmutex_types.go and once_types.go. A phase is a string of the CRD's
-- enum, or "", Go's zero value, which stands in an object that has no status yet.
use konductor.Prelude.{Bool, true, false, String, List, Option}
use konductor.Api.Meta.{Time, Duration, Object}

pub record MutexSpec : Type 0 where
  pub ttl : Option Duration

pub data MutexPhase : Type 0 where
  unset unlocked locked : MutexPhase

pub record MutexStatus : Type 0 where
  pub holder : String
  pub locked_at : Option Time
  pub expires_at : Option Time
  pub phase : MutexPhase

abbrev pub Mutex : Type 0
Mutex = Object MutexSpec MutexStatus

abbrev pub is_locked : MutexPhase → Bool
is_locked MutexPhase.locked = true
is_locked _ = false

abbrev pub is_unlocked : MutexPhase → Bool
is_unlocked MutexPhase.unlocked = true
is_unlocked _ = false

pub record RwMutexSpec : Type 0 where
  pub ttl : Option Duration

pub data RwMutexPhase : Type 0 where
  unset unlocked read_locked write_locked : RwMutexPhase

pub record RwMutexStatus : Type 0 where
  pub write_holder : String
  pub read_holders : List String
  pub locked_at : Option Time
  pub expires_at : Option Time
  pub phase : RwMutexPhase

abbrev pub RwMutex : Type 0
RwMutex = Object RwMutexSpec RwMutexStatus

abbrev pub same_rw_phase : RwMutexPhase → RwMutexPhase → Bool
same_rw_phase RwMutexPhase.unset RwMutexPhase.unset = true
same_rw_phase RwMutexPhase.unlocked RwMutexPhase.unlocked = true
same_rw_phase RwMutexPhase.read_locked RwMutexPhase.read_locked = true
same_rw_phase RwMutexPhase.write_locked RwMutexPhase.write_locked = true
same_rw_phase _ _ = false

pub record OnceSpec : Type 0 where
  pub ttl : Option Duration

pub data OncePhase : Type 0 where
  unset pending executed : OncePhase

pub record OnceStatus : Type 0 where
  pub executed : Bool
  pub executor : String
  pub executed_at : Option Time
  pub phase : OncePhase

abbrev pub Once : Type 0
Once = Object OnceSpec OnceStatus

abbrev pub is_unset_once : OncePhase → Bool
is_unset_once OncePhase.unset = true
is_unset_once _ = false

abbrev pub is_executed : OncePhase → Bool
is_executed OncePhase.executed = true
is_executed _ = false
