-- ===== src/Sdk/RwMutex/Locking.antt =====
-- What an `RLock` and a `Lock` of sdk/go/rwmutex/rwmutex.go that succeed have done.
use konductor.Prelude.{
  ◌≡◌, inl, inr, Bool, true, false, String, str_eq, is_blank, Option, some, List, [], ◌∷◌, ◌++◌,
  length, any, arith,
}
use konductor.Api.Meta.{Time}
use konductor.Api.Errors.{Result, Result-cases, ok}
use konductor.Api.Locks.{RwMutex, RwMutexPhase}
use konductor.Sdk.Host.{Host, BacksOff, key, resolve_holder}
use konductor.Sdk.Options.{Setter, apply, no_options}
use konductor.Sdk.Wait.{WaitConfig, retry_with_backoff}
use konductor.Sdk.Wait.Retry.{retry_sound, wait_sound}
use konductor.Sdk.RwMutex.{
  Handle, claim_read, claim_write, wait_config, confirm_read_config, change_once, lock, rlock,
}

abbrev is_reader : String → RwMutex → Bool
is_reader holder rw = any (λ x. str_eq x holder) rw.status.read_holders

-- An rwmutex that nobody holds, and the same one as the holder has taken it for writing at a time.
pub record Takes (t : Time) (holder : String) (m m' : RwMutex) : Type 0 where
  pub no_writer : is_blank m.status.write_holder ≡ true
  pub no_reader : length m.status.read_holders ≡ 0
  pub same : m'.meta ≡ m.meta
  pub locked : m'.status.phase ≡ RwMutexPhase.write_locked
  pub writer : m'.status.write_holder ≡ holder
  pub readers : m'.status.read_holders ≡ m.status.read_holders
  pub since : m'.status.locked_at ≡ some t

claim_write-Takes :
    (t : Time) (holder : String) (m m' : RwMutex)
    → claim_write t holder m ≡ ok m'
    → Takes t holder m m'
unfolding claim_write
claim_write-Takes t holder m m' e = record {
  no_writer = ground arith;
  no_reader = ground arith;
  same = ground arith;
  locked = ground arith;
  writer = ground arith;
  readers = ground arith;
  since = ground arith;
}

-- An rwmutex without a writer, and the same one with the holder as its last reader.
pub record Joins (holder : String) (m m' : RwMutex) : Type 0 where
  pub no_writer : is_blank m.status.write_holder ≡ true
  pub same : m'.meta ≡ m.meta
  pub locked : m'.status.phase ≡ RwMutexPhase.read_locked
  pub readers : m'.status.read_holders ≡ m.status.read_holders ++ (holder ∷ [])
  pub writer : m'.status.write_holder ≡ m.status.write_holder

claim_read-Joins :
    (t : Time) (holder : String) (m m' : RwMutex)
    → claim_read t holder m ≡ ok m'
    → Joins holder m m'
unfolding claim_read
claim_read-Joins t holder m m' e = record {
  no_writer = ground arith;
  same = ground arith;
  locked = ground arith;
  readers = ground arith;
  writer = ground arith;
}

module _ {W : Type 0} (h : Host W) where
  -- A read of the rwmutex, and an update with the change of what was read, which the server accepts.
  pub record Changed (name : String) (change : Time → RwMutex → Result RwMutex) (last : W)
      : Type 0 where
    pub before : RwMutex
    pub after : RwMutex
    pub read_at : W
    pub sent_at : W
    pub read : h.client.rw_mutexes.get (key h name) read_at ≡ (ok before, sent_at)
    pub computed : change (h.client.clock sent_at) before ≡ ok after
    pub sent : h.client.rw_mutexes.status_update after sent_at ≡ (ok tt, last)

  change_once-Changed :
      (name : String) (change : Time → RwMutex → Result RwMutex) (w w' : W)
      → change_once h name change w ≡ (ok tt, w')
      → Changed name change w'
  unfolding change_once
  change_once-Changed name change w w' e =
      let found = h.client.rw_mutexes.get (key h name) w in
      elim (Result-cases found.0) [
        | inl (x, missing) ↦ absurd (ground arith)
        | inr (rw, read) ↦ elim (Result-cases (change (h.client.clock found.1) rw)) [
          | inl (x, refused) ↦ absurd (ground arith)
          | inr (rw', made) ↦ record {
            before = rw;
            after = rw';
            read_at = w;
            sent_at = found.1;
            read = ground arith;
            computed = made;
            sent = ground arith;
          }
        ]
      ]

  retried-Changed :
      (name : String) (change : Time → RwMutex → Result RwMutex) (config : Option WaitConfig)
      (w w' : W)
      → BacksOff h
      → retry_with_backoff h (change_once h name change) config w ≡ (ok tt, w')
      → Changed name change w'
  retried-Changed name change config w w' polls e =
      let (u, done) = retry_sound h (change_once h name change) config w w' polls e in
      change_once-Changed name change u w' done

  -- An update by which the holder becomes the writer of an rwmutex that was free.
  pub record Taken (name holder : String) (last : W) : Type 0 where
    pub change : Changed name (λ t. claim_write t holder) last
    pub takes : Takes (h.client.clock change.sent_at) holder change.before change.after

  -- A `Lock` that succeeds has, with its last retry, read the rwmutex with no writer and no reader,
  -- and sent it as write-locked, with the holder of the call, or of the host, as its writer, in an
  -- update that the server accepted.
  pub lock-Taken :
      (name : String) (opts : List Setter) (w w' : W) (l : Handle)
      → BacksOff h
      → lock h name opts w ≡ (ok l, w')
      → let holder = (resolve_holder h (apply opts no_options).holder w).0 in
        Taken name holder w' × (l ≡ record { name = name; holder = holder; is_read = false })
  unfolding lock
  lock-Taken name opts w w' l polls e =
      let options = apply opts no_options in
      let (holder, v) = resolve_holder h options.holder w in
      let config = some (wait_config options.timeout) in
      let acquired =
        retry_with_backoff h (change_once h name (λ t. claim_write t holder)) config v in
      elim (Result-cases acquired.0) [
        | inl (x, late) ↦ absurd (ground arith)
        | inr (_, done) ↦
            let c =
              retried-Changed name (λ t. claim_write t holder) config v w' polls (ground arith) in
            let taken =
              claim_write-Takes (h.client.clock c.sent_at) holder c.before c.after c.computed in
            (record { change = c; takes = taken }, ground arith)
      ]

  -- The read lock, and the read that confirms it.
  pub record Joined (name holder : String) (last : W) : Type 0 where
    pub joined_at : W
    pub change : Changed name (λ t. claim_read t holder) joined_at
    pub joins : Joins holder change.before change.after
    pub confirmed : RwMutex
    pub confirmed_at : W
    pub seen : h.client.rw_mutexes.get (key h name) confirmed_at ≡ (ok confirmed, last)
    pub among : is_reader holder confirmed ≡ true

  -- An `RLock` that succeeds with its confirmation has, with its last retry, read the rwmutex with no
  -- writer and sent it as read-locked, with the holder of the call, or of the host, added to the
  -- readers, in an update that the server accepted, and then, with its last call, read that holder among the readers.
  pub rlock-Joined :
      (name : String) (opts : List Setter) (w w' : W) (l : Handle)
      → BacksOff h
      → rlock h name opts w ≡ (ok (l, ok tt), w')
      → let holder = (resolve_holder h (apply opts no_options).holder w).0 in
        Joined name holder w' × (l ≡ record { name = name; holder = holder; is_read = true })
  unfolding rlock
  rlock-Joined name opts w w' l polls e =
      let options = apply opts no_options in
      let (holder, v) = resolve_holder h options.holder w in
      let config = some (wait_config options.timeout) in
      let acquired =
        retry_with_backoff h (change_once h name (λ t. claim_read t holder)) config v in
      elim (Result-cases acquired.0) [
        | inl (x, late) ↦ absurd (ground arith)
        | inr (_, done) ↦
            let c =
              retried-Changed name (λ t. claim_read t holder) config v acquired.1 polls
                (ground arith) in
            let (u, (rw, read, among)) =
              wait_sound h h.client.rw_mutexes (key h name) (is_reader holder)
                (some confirm_read_config) acquired.1 w' polls (ground arith) in
            (
              record {
                joined_at = acquired.1;
                change = c;
                joins =
                    claim_read-Joins (h.client.clock c.sent_at) holder c.before c.after c.computed;
                confirmed = rw;
                confirmed_at = u;
                seen = read;
                among = among;
              },
              ground arith,
            )
      ]
