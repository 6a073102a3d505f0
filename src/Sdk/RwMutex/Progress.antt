-- ===== src/Sdk/RwMutex/Progress.antt =====
-- That `RLock` of sdk/go/rwmutex/rwmutex.go lets a reader join where there is no writer, and that
-- `Unlock` lets it leave.
use konductor.Prelude.{
  ◌≡◌, refl, ◌∙◌, ap, ◌*◌, ◌==◌, ◌≤◌, true, false, String, str_eq, Option, none, some, List, [],
  ◌∷◌, ◌++◌, length, any, if◌then◌else◌, arith,
}
use konductor.Api.Meta.{ObjectKey, Time, second}
use konductor.Api.Errors.{Result, ok}
use konductor.Api.Locks.{RwMutex, RwMutexStatus, RwMutexPhase}
use konductor.Client.Server.Availability.{update_answered}
use konductor.Sdk.Host.{Host, key, resolve_holder}
use konductor.Sdk.Options.{Setter, apply, no_options}
use konductor.Sdk.Wait.Backoff.{max_backoff_steps}
use konductor.Sdk.Wait.Progress.{Undisturbed, default-IsTimed, retry_at_once, wait_at_once}
use konductor.Sdk.RwMutex.{
  claim_read, release_read, others, first_of, expiry, wait_config, confirm_read_config, change_once,
  unlock_handle, unlock, rlock,
}
use konductor.Sdk.RwMutex.RoundTrip.{any_last, others_of_absent}

-- The server holds the rwmutex under a key with some readers and no writer.
abbrev pub HasReaders :
    {W : Type 0} → (W → ObjectKey → Option RwMutex) → W → ObjectKey → List String → Type 0
HasReaders stored w k readers =
    (o : RwMutex) × (stored w k ≡ some o)
    × (o.status.read_holders ≡ readers)
    × (o.status.write_holder ≡ "")

-- A change that gives some readers and no writer.
abbrev Gives : Result RwMutex → RwMutex → List String → Type 0
Gives r m readers =
    (m' : RwMutex) × (r ≡ ok m')
    × (m'.meta ≡ m.meta)
    × (m'.status.read_holders ≡ readers)
    × (m'.status.write_holder ≡ "")

claim_read-Gives :
    (t : Time) (holder : String) (m : RwMutex)
    → m.status.write_holder ≡ ""
    → Gives (claim_read t holder m) m (m.status.read_holders ++ (holder ∷ []))
unfolding claim_read
claim_read-Gives t holder m none_writes = (
  record m {
    status = record m.status {
      phase = RwMutexPhase.read_locked;
      read_holders = m.status.read_holders ++ (holder ∷ []);
      locked_at = first_of t m.status.locked_at;
      expires_at = expiry t m.spec.ttl m.status.expires_at;
    };
  },
  rw (none_writes, claim_read) refl,
  refl,
  refl,
  none_writes,
)

-- The status when some readers are left.
abbrev left : List String → RwMutexStatus → RwMutexStatus
left rest s =
    if length rest == 0
    then record s {
      read_holders = rest;
      phase = RwMutexPhase.unlocked;
      locked_at = none;
      expires_at = none;
    }
    else record s { read_holders = rest }

release_read-Gives :
    (holder : String) (m : RwMutex) (readers : List String)
    → m.status.read_holders ≡ readers ++ (holder ∷ [])
    → any (λ x. str_eq x holder) readers ≡ false
    → m.status.write_holder ≡ ""
    → Gives (release_read holder m) m readers
unfolding release_read
release_read-Gives holder m readers last absent none_writes =
    let reads : any (λ x. str_eq x holder) m.status.read_holders ≡ true =
      ap (any (λ x. str_eq x holder)) last ∙ any_last holder readers in
    let rest : others holder m.status.read_holders ≡ readers =
      ap (others holder) last ∙ others_of_absent holder readers absent in
    (
      record m { status = left (others holder m.status.read_holders) m.status },
      rw (reads, release_read) refl,
      refl,
      ground arith,
      ground arith,
    )

module _ {W : Type 0} (h : Host W) (stored : W → ObjectKey → Option RwMutex)
    (calm : Undisturbed h h.client.rw_mutexes stored) where
  change_once_answered :
      (name : String) (change : Time → RwMutex → Result RwMutex) (m : RwMutex)
      (readers : List String) (w : W)
      → stored w (key h name) ≡ some m
      → Gives (change (h.client.clock w) m) m readers
      → (u : W) × (change_once h name change w ≡ (ok tt, u))
        × HasReaders stored u (key h name) readers
  unfolding change_once
  change_once_answered name change m readers w held (m', changed, same, read, written) =
      let k = key h name in
      let (u, sent, (o, is_now, status)) =
        update_answered h.client.rw_mutexes stored calm.serves calm.answers k m m' w held same in
      (
        u,
        let found = calm.answers.finds k w m held in ground arith,
        (
          o,
          is_now,
          ap (λ s. s.read_holders) status ∙ read,
          ap (λ s. s.write_holder) status ∙ written,
        ),
      )

  rlock_joins :
      (name : String) (opts : List Setter) (readers : List String) (w : W)
      → (wait_config (apply opts no_options).timeout).timeout ≤ max_backoff_steps * (5 * second)
      → HasReaders stored w (key h name) readers
      → let holder = (resolve_holder h (apply opts no_options).holder w).0 in
        (u : W) × (rlock h name opts w
          ≡ (ok (record { name = name; holder = holder; is_read = true }, ok tt), u))
        × HasReaders stored u (key h name) (readers ++ (holder ∷ []))
  unfolding rlock resolve_holder
  rlock_joins name opts readers w limit (m, held, read, none_writes) =
      let k = key h name in
      let options = apply opts no_options in
      let holder = (resolve_holder h options.holder w).0 in
      let (m', changed, same, reads, writes) =
        claim_read-Gives (h.client.clock w) holder m none_writes in
      let (u, once, (o, there, joined, nobody)) =
        change_once_answered name (λ t. claim_read t holder) m (readers ++ (holder ∷ [])) w held
          (m', changed, same, reads ∙ ap (λ hs. hs ++ (holder ∷ [])) read, writes) in
      let retried =
        retry_at_once h h.client.rw_mutexes stored calm
          (change_once h name (λ t. claim_read t holder)) (some (wait_config options.timeout)) w u
          (record { delays = omega arith; times_out = ground arith; limited = limit }) once in
      let (w', seen, aside) =
        wait_at_once h h.client.rw_mutexes stored calm k
          (λ rw. any (λ x. str_eq x holder) rw.status.read_holders) (some confirm_read_config) o u
          (record { delays = omega arith; times_out = omega arith; limited = omega arith }) there
          (ap (any (λ x. str_eq x holder)) joined ∙ any_last holder readers) in
      (w', ground arith, (o, aside k ∙ there, joined, nobody))

  unlock_leaves :
      (name holder : String) (readers : List String) (w : W)
      → any (λ x. str_eq x holder) readers ≡ false
      → HasReaders stored w (key h name) (readers ++ (holder ∷ []))
      → (v : W) × (unlock h name holder w ≡ (ok tt, v)) × HasReaders stored v (key h name) readers
  unfolding unlock unlock_handle
  unlock_leaves name holder readers w absent (m, held, last, none_writes) =
      let reads : any (λ x. str_eq x holder) m.status.read_holders ≡ true =
        ap (any (λ x. str_eq x holder)) last ∙ any_last holder readers in
      let (v, once, kept) =
        change_once_answered name (λ t. release_read holder) m readers w held
          (release_read-Gives holder m readers last absent none_writes) in
      let retried =
        retry_at_once h h.client.rw_mutexes stored calm
          (change_once h name (λ t. release_read holder)) none w v default-IsTimed once in
      let found = calm.answers.finds (key h name) w m held in (v, ground arith, kept)

  -- Where nothing else happens meanwhile, and with a timeout of at most a million times 5 seconds:
  -- `RLock` of an rwmutex that has no writer, by a holder who is not among its readers, succeeds and
  -- is confirmed, and adds the holder to the readers; then `Unlock` by that holder succeeds, and
  -- leaves the readers as they were, in their order.
  pub unlock-rlock :
      (name : String) (opts : List Setter) (readers : List String) (w : W)
      → (wait_config (apply opts no_options).timeout).timeout ≤ max_backoff_steps * (5 * second)
      → any (λ x. str_eq x (resolve_holder h (apply opts no_options).holder w).0) readers ≡ false
      → HasReaders stored w (key h name) readers
      → let holder = (resolve_holder h (apply opts no_options).holder w).0 in
        (u : W) × (rlock h name opts w
          ≡ (ok (record { name = name; holder = holder; is_read = true }, ok tt), u))
        × HasReaders stored u (key h name) (readers ++ (holder ∷ []))
        × ((v : W) × (unlock h name holder u ≡ (ok tt, v))
            × HasReaders stored v (key h name) readers)
  unlock-rlock name opts readers w limit absent held =
      let holder = (resolve_holder h (apply opts no_options).holder w).0 in
      let (u, joined, reads) = rlock_joins name opts readers w limit held in
      (u, joined, reads, unlock_leaves name holder readers u absent reads)
