-- ===== src/Sdk/RwMutex/Exclusion/Refinement.antt =====
-- The processes of sdk/go/rwmutex/rwmutex.go and controllers/rwmutex_controller.go implement a lock
-- with one writer or readers in no order.
use konductor.Prelude.{
  ◌≡◌, subst, inl, inr, true, false, Bool-cases, String, str_eq, is_blank, Option, none, some, List,
  [], ◌∷◌, ◌++◌, length, ◌==◌, any, if◌then◌else◌, arith,
}
use konductor.Api.Meta.{Time, Duration, ObjectKey}
use konductor.Api.Locks.{RwMutex, RwMutexSpec, RwMutexStatus}
use konductor.Client.Server.{Resource, Serves}
use konductor.Client.Race.{System, Reach, Inv}
use konductor.Client.Race.Serial.{log}
use konductor.Client.Race.Refinement.{Run, Reach-Run}
use konductor.Controllers.Mutex.{is_expired}
use konductor.Controllers.RwMutex.{refresh, expire, match_phase, set_phase}
use konductor.Sdk.RwMutex.{expiry, others, claim_read, claim_write, release_read, release_write}
use konductor.Sdk.RwMutex.Exclusion.{
  Intent, rlock, lock, runlock, unlock, reconcile, plan, plan_meta,
}
use konductor.Sdk.RwMutex.Exclusion.Readers.{Readers, readers_of, join, drop, reads, is_empty}

-- The abstract lock: the writer, or a blank, the readers, and until when they hold it.
pub record Lock : Type 0 where
  pub writer : String
  pub readers : Readers
  pub until : Option Time

-- What it may do, for a TTL.
pub data Moves (ttl : Option Duration) : Intent → Lock → Lock → Type 0 where
  joins :
      {t : Time} {holder : String} {l : Lock}
      → is_blank l.writer ≡ true
      → Moves ttl (rlock t holder) l (record {
        writer = l.writer;
        readers = join holder l.readers;
        until = expiry t ttl l.until;
      })
  takes :
      {t : Time} {holder : String} {l : Lock}
      → is_blank l.writer ≡ true
      → is_empty l.readers ≡ true
      → Moves ttl
          (lock t holder)
          l
          (record { writer = holder; readers = l.readers; until = expiry t ttl l.until })
  quits :
      {holder : String} {l : Lock}
      → reads holder l.readers ≡ true
      → Moves ttl (runlock holder) l (record {
        writer = l.writer;
        readers = drop holder l.readers;
        until = if is_empty (drop holder l.readers) then none else l.until;
      })
  frees :
      {holder : String} {l : Lock}
      → str_eq l.writer holder ≡ true
      → Moves ttl (unlock holder) l (record { writer = ""; readers = l.readers; until = none })
  expires :
      {t : Time} {l : Lock}
      → is_expired l.until t ≡ true
      → Moves ttl (reconcile t) l (record { writer = ""; readers = readers_of []; until = none })
  rephases : {t : Time} {l : Lock} → is_expired l.until t ≡ false → Moves ttl (reconcile t) l l

-- The lock that a status stands for.
abbrev pub view : RwMutexStatus → Lock
view s = record {
  writer = s.write_holder;
  readers = readers_of s.read_holders;
  until = s.expires_at;
}

-- The fields that a status shares with a lock, to compare it with what it should be.
record Shows (s : RwMutexStatus) (writer : String) (holders : List String) (until : Option Time)
    : Type 0 where
  writes : s.write_holder ≡ writer
  read_by : s.read_holders ≡ holders
  ends : s.expires_at ≡ until

shown :
    (s : RwMutexStatus) {writer : String} {holders : List String} {until : Option Time}
    → Shows s writer holders until
    → record { writer = writer; readers = readers_of holders; until = until } ≡ view s
shown s e = cc (e.writes, e.read_by, e.ends)

read-Shows :
    (t : Time) (holder : String) (o m : RwMutex)
    → plan (rlock t holder) o ≡ some m
    → (is_blank o.status.write_holder ≡ true)
      × Shows m.status o.status.write_holder
          (o.status.read_holders ++ (holder ∷ []))
          (expiry t o.spec.ttl o.status.expires_at)
unfolding plan claim_read
read-Shows t holder o m e =
    (ground arith, record { writes = ground arith; read_by = ground arith; ends = ground arith })

lock-Shows :
    (t : Time) (holder : String) (o m : RwMutex)
    → plan (lock t holder) o ≡ some m
    → (is_blank o.status.write_holder ≡ true)
      × (length o.status.read_holders == 0 ≡ true)
      × Shows m.status holder o.status.read_holders (expiry t o.spec.ttl o.status.expires_at)
unfolding plan claim_write
lock-Shows t holder o m e = (
  ground arith,
  ground arith,
  record { writes = ground arith; read_by = ground arith; ends = ground arith },
)

quit-Shows :
    (holder : String) (o m : RwMutex)
    → plan (runlock holder) o ≡ some m
    → let rest = others holder o.status.read_holders in
      (any (λ x. str_eq x holder) o.status.read_holders ≡ true)
      × Shows m.status o.status.write_holder rest
          (if length rest == 0 then none else o.status.expires_at)
unfolding plan release_read
quit-Shows holder o m e =
    (ground arith, record { writes = ground arith; read_by = ground arith; ends = ground arith })

free-Shows :
    (holder : String) (o m : RwMutex)
    → plan (unlock holder) o ≡ some m
    → (str_eq o.status.write_holder holder ≡ true) × Shows m.status "" o.status.read_holders none
unfolding plan release_write
free-Shows holder o m e =
    (ground arith, record { writes = ground arith; read_by = ground arith; ends = ground arith })

late-Shows :
    (t : Time) (o m : RwMutex)
    → plan (reconcile t) o ≡ some m
    → is_expired o.status.expires_at t ≡ true
    → Shows m.status "" [] none
unfolding plan refresh expire match_phase set_phase
late-Shows t o m e late = record {
  writes = ground arith;
  read_by = ground arith;
  ends = ground arith;
}

early-Shows :
    (t : Time) (o m : RwMutex)
    → plan (reconcile t) o ≡ some m
    → is_expired o.status.expires_at t ≡ false
    → Shows m.status o.status.write_holder o.status.read_holders o.status.expires_at
unfolding plan refresh expire match_phase set_phase
early-Shows t o m e early = record {
  writes = ground arith;
  read_by = ground arith;
  ends = ground arith;
}

plan-Moves :
    (a : Intent) (o m : RwMutex)
    → plan a o ≡ some m
    → Moves o.spec.ttl a (view o.status) (view m.status)
unfolding join drop reads is_empty
plan-Moves (rlock t holder) o m e =
    let (free, shows) = read-Shows t holder o m e in
    subst (Moves o.spec.ttl (rlock t holder) (view o.status)) (shown m.status shows) (joins free)
plan-Moves (lock t holder) o m e =
    let (free, nobody, shows) = lock-Shows t holder o m e in
    subst (Moves o.spec.ttl (lock t holder) (view o.status)) (shown m.status shows)
      (takes free nobody)
plan-Moves (runlock holder) o m e =
    let (reading, shows) = quit-Shows holder o m e in
    subst (Moves o.spec.ttl (runlock holder) (view o.status)) (shown m.status shows) (quits reading)
plan-Moves (unlock holder) o m e =
    let (own, shows) = free-Shows holder o m e in
    subst (Moves o.spec.ttl (unlock holder) (view o.status)) (shown m.status shows) (frees own)
plan-Moves (reconcile t) o m e = elim (Bool-cases (is_expired o.status.expires_at t)) [
  | inl late ↦
      subst (Moves o.spec.ttl (reconcile t) (view o.status))
        (shown m.status (late-Shows t o m e late)) (expires late)
  | inr early ↦
      subst (Moves o.spec.ttl (reconcile t) (view o.status))
        (shown m.status (early-Shows t o m e early)) (rephases early)
]

module _ {W : Type 0} (r : Resource W RwMutexSpec RwMutexStatus)
    (stored : W → ObjectKey → Option RwMutex) (k : ObjectKey) (serves : Serves r stored) where
  -- However the calls of any number of processes and of the operator interleave, the stored rwmutex
  -- is that of a run of the abstract lock, by the intents whose updates the server accepted: a
  -- reader joins only while there is no writer, a writer takes it only while nobody holds it, a
  -- writer leaves only by an Unlock that names it and a reader by its own, and all leave after
  -- their time. The order of the readers plays no part.
  pub rw_mutex_refines :
      {s : System W RwMutexSpec RwMutexStatus} {o : RwMutex}
      {t : System W RwMutexSpec RwMutexStatus}
      → Inv stored k s o
      → (past : Reach plan r k (λ _. true) s t)
      → (o' : RwMutex) × (stored t.world k ≡ some o')
        × Run (Moves o.spec.ttl) (view o.status) (log past) (view o'.status)
  rw_mutex_refines v past =
      Reach-Run plan (λ spec. Moves spec.ttl) view plan-Moves plan_meta r stored k serves v past
