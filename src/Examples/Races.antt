-- ===== src/Examples/Races.antt =====
-- The races of the rwmutex.
use konductor.Prelude.{
  ◌≡◌, refl, eq_of_some, subst, ℕ, zero, suc, ◌==◌, pos, true, Option, none, some, [], ◌∷◌,
  if◌then◌else◌, inl, arith,
}
use konductor.Api.Meta.{ObjectKey, Object, key_of}
use konductor.Api.Locks.{RwMutex, RwMutexPhase}
use konductor.Memory
use konductor.Memory.{resource, stored, memory-Serves}
use konductor.Memory.World.{World, empty, rw_mutexes_lens, named}
use konductor.Client.Race.{System, send, Reach, here, next, Inv, IsPast}
use konductor.Sdk.RwMutex
use konductor.Sdk.RwMutex.Exclusion
use konductor.Client.Race.Serial.{log}
use konductor.Client.Race.Refinement.{Run}
use konductor.Sdk.RwMutex.Exclusion.Refinement.{Moves, view, rw_mutex_refines}
use konductor.Sdk.RwMutex.Exclusion.Safety.{Excludes, always-Excludes}

-- Process 0 has just read the object.
abbrev pub just_read : {S T : Type 0} → World → Object S T → System World S T
just_read w o = record { world = w; seen = λ i. if i == 0 then some o else none }

just_read-IsPast :
    {S T : Type 0} (k : ObjectKey) (w : World) (o : Object S T)
    → key_of o.meta ≡ k
    → (i : ℕ) (m : Object S T) → (just_read w o).seen i ≡ some m
    → IsPast k m o
just_read-IsPast k w o keyed zero m e =
    subst (λ x. IsPast k x o) (eq_of_some e)
      (record { keyed = keyed; not_newer = omega arith; same = λ _. refl })
just_read-IsPast k w o keyed (suc i) m e = absurd (ground arith)

pub just_read-Inv :
    {S T : Type 0} (stored : World → ObjectKey → Option (Object S T)) (k : ObjectKey) (w : World)
    (o : Object S T)
    → key_of o.meta ≡ k
    → stored w k ≡ some o
    → Inv stored k (just_read w o) o
just_read-Inv stored k w o keyed held = record { held = held; past = just_read-IsPast k w o keyed }

abbrev pub x_key : ObjectKey
x_key = record { namespace = "default"; name = "x" }

-- An rwmutex that "a" reads, and one that "a" writes.
abbrev read_rw : RwMutex
read_rw = record {
  meta = named "x";
  spec = record { ttl = none };
  status = record {
    write_holder = "";
    read_holders = "a" ∷ [];
    locked_at = some (pos 1);
    expires_at = none;
    phase = RwMutexPhase.read_locked;
  };
}

abbrev written_rw : RwMutex
written_rw = record {
  meta = named "x";
  spec = record { ttl = none };
  status = record {
    write_holder = "a";
    read_holders = [];
    locked_at = some (pos 1);
    expires_at = none;
    phase = RwMutexPhase.write_locked;
  };
}

abbrev with_rw : RwMutex → World
with_rw rw = record empty { rw_mutexes = some rw }

with_rw-Inv :
    (rw : RwMutex)
    → stored rw_mutexes_lens (with_rw rw) x_key ≡ some rw
    → key_of rw.meta ≡ x_key
    → Inv (stored rw_mutexes_lens) x_key (just_read (with_rw rw) rw) rw
with_rw-Inv rw held keyed = just_read-Inv (stored rw_mutexes_lens) x_key (with_rw rw) rw keyed held

-- "b" joins the readers.
abbrev joined_rw : RwMutex
joined_rw = record read_rw {
  meta = record (named "x") { resource_version = 2 };
  status = record read_rw.status { read_holders = "a" ∷ "b" ∷ [] };
}

join :
    Reach Exclusion.plan
      (resource rw_mutexes_lens)
      x_key
      (λ _. true)
      (just_read (with_rw read_rw) read_rw)
      (record { world = with_rw joined_rw; seen = (just_read (with_rw read_rw) read_rw).seen })
unfolding Exclusion.plan RwMutex.claim_read Memory.write
join = next here (send 0 (Exclusion.rlock (pos 9) "b") refl refl refl refl)

always-Excludes_example :
    (o : RwMutex) × (stored rw_mutexes_lens (with_rw joined_rw) x_key ≡ some o) × Excludes o.status
unfolding Memory.find
always-Excludes_example =
    always-Excludes (resource rw_mutexes_lens) (stored rw_mutexes_lens) x_key
      (memory-Serves rw_mutexes_lens) (with_rw-Inv read_rw refl refl) (inl refl) join

abbrev free_rw : RwMutex
free_rw = record written_rw {
  status = record written_rw.status { write_holder = ""; phase = RwMutexPhase.unlocked };
}

-- "a" writes; process 0 has read the lock while it was free, and its update is refused.
abbrev late_world : World
late_world = with_rw (record written_rw { meta = record (named "x") { resource_version = 2 } })

late-IsPast :
    (i : ℕ) (m : RwMutex)
    → (just_read late_world free_rw).seen i ≡ some m
    → IsPast x_key m (record written_rw { meta = record (named "x") { resource_version = 2 } })
late-IsPast zero m e =
    subst
      (λ x.
        IsPast x_key x (record written_rw { meta = record (named "x") { resource_version = 2 } }))
      (eq_of_some e)
      (record { keyed = refl; not_newer = omega arith; same = λ q. absurd (omega arith) })
late-IsPast (suc i) m e = absurd (ground arith)

-- "b" joins; a second `RLock` from the same read is refused.
two_reads :
    Reach Exclusion.plan
      (resource rw_mutexes_lens)
      x_key
      (λ _. true)
      (just_read (with_rw read_rw) read_rw)
      (record { world = with_rw joined_rw; seen = (just_read (with_rw read_rw) read_rw).seen })
unfolding Exclusion.plan RwMutex.claim_read Memory.write
two_reads =
    next (next here (send 0 (Exclusion.rlock (pos 5) "b") refl refl refl refl))
      (send 0 (Exclusion.rlock (pos 9) "d") refl refl refl refl)

rw_mutex_refines_example :
    (o : RwMutex) × (stored rw_mutexes_lens (with_rw joined_rw) x_key ≡ some o)
    × Run (Moves none) (view read_rw.status) (log two_reads) (view o.status)
unfolding Memory.find
rw_mutex_refines_example =
    rw_mutex_refines (resource rw_mutexes_lens) (stored rw_mutexes_lens) x_key
      (memory-Serves rw_mutexes_lens) (with_rw-Inv read_rw refl refl) two_reads
