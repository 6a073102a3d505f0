-- ===== src/Sdk/Mutex/Locking.antt =====
-- What a `Lock` of sdk/go/mutex/mutex.go that succeeds has done.
use konductor.Prelude.{
  ◌≡◌, ◌⊎◌, inl, inr, Bool, true, false, not, ◌&&◌, Bool-cases, String, str_eq, is_blank, some,
  List, arith,
}
use konductor.Api.Errors.{Result-cases, ok}
use konductor.Api.Meta.{Time}
use konductor.Api.Locks.{Mutex, MutexPhase, is_locked}
use konductor.Sdk.Host.{Host, BacksOff, key, resolve_holder}
use konductor.Sdk.Options.{Setter, apply, no_options}
use konductor.Sdk.Wait.{wait_for_condition, retry_with_backoff}
use konductor.Sdk.Wait.Retry.{retry_sound, wait_sound}
use konductor.Sdk.Mutex.{
  Handle, claim, lock_config, acquire_config, confirm_config, lock_once, confirm, acquire, lock,
}

-- A mutex that nobody holds, and the same one as the holder has taken it at a time.
pub record Takes (t : Time) (holder : String) (m m' : Mutex) : Type 0 where
  pub free : (is_locked m.status.phase ≡ false) ⊎ (is_blank m.status.holder ≡ true)
  pub same : m'.meta ≡ m.meta
  pub spec : m'.spec ≡ m.spec
  pub locked : m'.status.phase ≡ MutexPhase.locked
  pub mine : m'.status.holder ≡ holder
  pub since : m'.status.locked_at ≡ some t

claim-Takes :
    (t : Time) (holder : String) (m m' : Mutex) → claim t holder m ≡ ok m' → Takes t holder m m'
unfolding claim
claim-Takes t holder m m' e = record {
  free = ground arith;
  same = ground arith;
  spec = ground arith;
  locked = ground arith;
  mine = ground arith;
  since = ground arith;
}

module _ {W : Type 0} (h : Host W) where
  -- A read of the mutex, which nobody holds, and an update by which the holder takes it and which
  -- the server accepts.
  pub record Claimed (name holder : String) (last : W) : Type 0 where
    pub mutex : Mutex
    pub claimed : Mutex
    pub read_at : W
    pub sent_at : W
    pub read : h.client.mutexes.get (key h name) read_at ≡ (ok mutex, sent_at)
    pub takes : Takes (h.client.clock sent_at) holder mutex claimed
    pub sent : h.client.mutexes.status_update claimed sent_at ≡ (ok tt, last)

  -- Such an update, and then the read that confirms it.
  pub record Locked (name holder : String) (last : W) : Type 0 where
    pub claimed_at : W
    pub claim : Claimed name holder claimed_at
    pub confirmed : Mutex
    pub confirmed_at : W
    pub seen : h.client.mutexes.get (key h name) confirmed_at ≡ (ok confirmed, last)
    pub locked : is_locked confirmed.status.phase ≡ true
    pub mine : str_eq confirmed.status.holder holder ≡ true

  lock_once-Claimed :
      (name holder : String) (w w' : W)
      → lock_once h name holder w ≡ (ok tt, w')
      → Claimed name holder w'
  unfolding lock_once
  lock_once-Claimed name holder w w' e =
      let found = h.client.mutexes.get (key h name) w in
      elim (Result-cases found.0) [
        | inl (x, missing) ↦ absurd (ground arith)
        | inr (m, read) ↦ elim (Result-cases (claim (h.client.clock found.1) holder m)) [
          | inl (x, held) ↦ absurd (ground arith)
          | inr (m', taken) ↦ record {
            mutex = m;
            claimed = m';
            read_at = w;
            sent_at = found.1;
            read = ground arith;
            takes = claim-Takes (h.client.clock found.1) holder m m' taken;
            sent = ground arith;
          }
        ]
      ]

  confirm_seen :
      (name holder : String) (w w' : W) (l : Handle)
      → BacksOff h
      → confirm h name holder w ≡ (ok l, w')
      → (u : W) × ((m : Mutex) × (h.client.mutexes.get (key h name) u ≡ (ok m, w'))
          × (is_locked m.status.phase && str_eq m.status.holder holder ≡ true))
        × (l ≡ record { name = name; holder = holder })
  unfolding confirm
  confirm_seen name holder w w' l polls e =
      let mine : Mutex → Bool = λ m. is_locked m.status.phase && str_eq m.status.holder holder in
      let seen = wait_for_condition h h.client.mutexes (key h name) mine (some confirm_config) w in
      elim (Result-cases seen.0) [
        | inl (x, late) ↦ absurd (ground arith)
        | inr (_, done) ↦
            let (u, (m, read, held)) =
              wait_sound h h.client.mutexes (key h name) mine (some confirm_config) w w' polls
                (ground arith) in
            (u, (m, read, held), ground arith)
      ]

  acquire-Locked :
      (name holder : String) (w w' : W) (l : Handle)
      → BacksOff h
      → acquire h name holder w ≡ (ok l, w')
      → Locked name holder w' × (l ≡ record { name = name; holder = holder })
  unfolding acquire
  acquire-Locked name holder w w' l polls e =
      let taken = retry_with_backoff h (lock_once h name holder) (some acquire_config) w in
      elim (Result-cases taken.0) [
        | inl (x, failed) ↦ absurd (ground arith)
        | inr (_, done) ↦
            let (u, won) =
              retry_sound h (lock_once h name holder) (some acquire_config) w taken.1 polls
                (ground arith) in
            let (v, (m, read, held), same) =
              confirm_seen name holder taken.1 w' l polls (ground arith) in
            (
              record {
                claimed_at = taken.1;
                claim = lock_once-Claimed name holder u taken.1 won;
                confirmed = m;
                confirmed_at = v;
                seen = read;
                locked = ground arith;
                mine = ground arith;
              },
              same,
            )
      ]

  -- A `Lock` that succeeds has a name, and a holder: that of the call, or the host's. Its last retry
  -- read the mutex as not locked, or as locked by nobody, and sent it as locked by the holder since
  -- the time of the read in an update that the server accepted; then its last call read the mutex as
  -- locked by that holder.
  pub lock-Locked :
      (name : String) (opts : List Setter) (w w' : W) (l : Handle)
      → BacksOff h
      → lock h name opts w ≡ (ok l, w')
      → let holder = (resolve_holder h (apply opts no_options).holder w).0 in
        (is_blank name ≡ false)
        × Locked name holder w'
        × (l ≡ record { name = name; holder = holder })
  unfolding lock
  lock-Locked name opts w w' l polls e =
      let options = apply opts no_options in
      let holder = (resolve_holder h options.holder w).0 in
      let free =
        wait_for_condition h h.client.mutexes (key h name) (λ m. not (is_locked m.status.phase))
          (some (lock_config options.timeout)) (resolve_holder h options.holder w).1 in
      elim (Bool-cases (is_blank name)) [
        | inl blank ↦ absurd (ground arith)
        | inr named ↦ elim (Result-cases free.0) [
          | inl (x, late) ↦ absurd (ground arith)
          | inr (_, seen) ↦
              let (locked, same) = acquire-Locked name holder free.1 w' l polls (ground arith) in
              (named, locked, same)
        ]
      ]
