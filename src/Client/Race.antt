-- ===== src/Client/Race.antt =====
-- Several processes on one object of the API server. Any number of them run at once: each reads the
-- object when it likes and, at any later time, sends the status update that it computed from what it
-- read. A step is one call of the API server. The object is neither deleted nor rewritten by hand.
pub mod Atomic
pub mod Serial
pub mod Refinement
use konductor.Prelude.{◌≡◌, ℕ, ◌≤◌, ◌==◌, Bool, true, Option, none, some, if◌then◌else◌}
use konductor.Api.Meta.{ObjectKey, Object, key_of}
use konductor.Api.Errors.{Result, ok}
use konductor.Client.Server.{Resource}

-- The world, and what each process has read last.
pub record System (W S T : Type 0) : Type 0 where
  pub world : W
  pub seen : ℕ → Option (Object S T)

abbrev pub remember :
    {S T : Type 0} → (ℕ → Option (Object S T)) → ℕ → Object S T → ℕ → Option (Object S T)
remember seen i m j = if i == j then some m else seen j

-- `plan a m` is the object that a process sends that means to do `a` and has read `m`, if it sends
-- one.
module _ {W S T A : Type 0} (plan : A → Object S T → Option (Object S T)) (r : Resource W S T)
    (k : ObjectKey) where
  -- A step in which a process that sends an update has an allowed intent. The answer of the server
  -- is whatever it is.
  pub data Step (allowed : A → Bool) (s : System W S T) : System W S T → Type 0 where
    read :
        (i : ℕ) {m : Object S T} {w' : W}
        → r.get k s.world ≡ (ok m, w')
        → Step allowed s (record { world = w'; seen = remember s.seen i m })
    send :
        (i : ℕ) (a : A) {m m' : Object S T} {w' : W} {answer : Result (Unit {0})}
        → allowed a ≡ true
        → s.seen i ≡ some m
        → plan a m ≡ some m'
        → r.status_update m' s.world ≡ (answer, w')
        → Step allowed s (record { world = w'; seen = s.seen })

  pub data Reach (allowed : A → Bool) (s : System W S T) : System W S T → Type 0 where
    here : Reach allowed s s
    next : {t u : System W S T} → Reach allowed s t → Step allowed t u → Reach allowed s u

-- What a process has read is the stored object, or older than that.
pub record IsPast {S T : Type 0} (k : ObjectKey) (m o : Object S T) : Type 0 where
  pub keyed : key_of m.meta ≡ k
  pub not_newer : m.meta.resource_version ≤ o.meta.resource_version
  pub same : m.meta.resource_version ≡ o.meta.resource_version → m ≡ o

-- The object `o` is stored, and all that has been read is of its past.
pub record Inv {W S T : Type 0} (stored : W → ObjectKey → Option (Object S T)) (k : ObjectKey)
    (s : System W S T) (o : Object S T) : Type 0 where
  pub held : stored s.world k ≡ some o
  pub past : (i : ℕ) (m : Object S T) → s.seen i ≡ some m → IsPast k m o

-- Nobody has read anything yet.
pub start-Inv :
    {W S T : Type 0} (stored : W → ObjectKey → Option (Object S T)) (k : ObjectKey) (w : W)
    (o : Object S T)
    → stored w k ≡ some o
    → Inv stored k (record { world = w; seen = λ _. none }) o
start-Inv stored k w o h = record { held = h; past = λ i m e. absurd (cc) }
