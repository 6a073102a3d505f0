-- ===== src/Sdk/RwMutex/Exclusion/Safety.antt =====
-- Who holds an rwmutex, however the calls of the processes interleave.
use konductor.Prelude.{
  ℕ, ap, eq_of_some, ◌≡◌, refl, sym, ◌∙◌, subst, ◌⊎◌, inl, inr, Bool, true, false, not, String,
  str_eq, is_blank, Option, none, some, List, [], ◌∷◌, ◌++◌, length, ltb, arith,
}
use konductor.Api.Meta.{Time, ObjectKey}
use konductor.Api.Errors.{ok, Result-cases}
use konductor.Api.Locks.{RwMutex, RwMutexSpec, RwMutexStatus, RwMutexPhase}
use konductor.Client.Server.{Resource, Serves}
use konductor.Client.Race.{System, Reach, Inv}
use konductor.Client.Race.Atomic.{Change, keeps, becomes, Reach-keeps, accepted_current}
use konductor.Controllers.Mutex.{is_expired}
use konductor.Controllers.RwMutex.{refresh, expire, match_phase, set_phase}
use konductor.Sdk.RwMutex.{claim_read, claim_write, release_read, release_write}
use konductor.Sdk.RwMutex.Exclusion.{
  Intent, rlock, lock, runlock, unlock, reconcile, accepted, plan, plan_meta,
}

-- There is no writer, or there are no readers.
abbrev pub Excludes : RwMutexStatus → Type 0
Excludes s = (is_blank s.write_holder ≡ true) ⊎ (s.read_holders ≡ [])

refresh-Excludes : (t : Time) (s : RwMutexStatus) → Excludes s → Excludes (refresh t s).0
unfolding refresh match_phase set_phase expire
refresh-Excludes t s x = ground arith

no_reader : (xs : List String) → ltb 0 (length xs) ≡ false → xs ≡ []
no_reader [] e = refl
no_reader (x ∷ xs) e = absurd (ground arith)

release_write_checks :
    (holder : String) (m m' : RwMutex)
    → release_write holder m ≡ ok m'
    → (str_eq m.status.write_holder holder ≡ true) × (m'.status.write_holder ≡ "")
unfolding release_write
release_write_checks holder m m' e = ground arith

planned :
    (holder : String) (m m' : RwMutex)
    → accepted (release_write holder m) ≡ some m'
    → release_write holder m ≡ ok m'
planned holder m m' e = elim (Result-cases (release_write holder m)) [
  | inl (x, f) ↦ absurd (cc (rw f at e))
  | inr (y, f) ↦ f ∙ ap ok (eq_of_some (rw f at e))
]

plan-Excludes :
    (a : Intent) (o m : RwMutex) → plan a o ≡ some m → Excludes o.status → Excludes m.status
unfolding plan claim_read claim_write release_read
plan-Excludes (rlock t holder) o m e x = ground arith
plan-Excludes (lock t holder) o m e x = ground (arith, no_reader o.status.read_holders)
plan-Excludes (runlock holder) o m e x = ground arith
plan-Excludes (unlock holder) o m e x =
    inl (ap is_blank (release_write_checks holder o m (planned holder o m e)).1)
plan-Excludes (reconcile t) o m e x = ground (arith, refresh-Excludes t o.status)

-- The status of an rwmutex that a writer holds.
pub record IsWritten (s : RwMutexStatus) : Type 0 where
  pub named : is_blank s.write_holder ≡ false
  pub alone : s.read_holders ≡ []
  pub phased : s.phase ≡ RwMutexPhase.write_locked

-- The intents that leave a write lock to its holder: all but to unlock it for the holder, and to
-- reconcile it after its TTL.
unfoldable pub leaves : RwMutexStatus → Intent → Bool
leaves s (rlock t holder) = true
leaves s (lock t holder) = true
leaves s (runlock holder) = true
leaves s (unlock holder) = not (str_eq s.write_holder holder)
leaves s (reconcile t) = not (is_expired s.expires_at t)

written_kept :
    (t : Time) (s : RwMutexStatus)
    → IsWritten s
    → is_expired s.expires_at t ≡ false
    → refresh t s ≡ (s, false)
unfolding refresh match_phase set_phase expire
written_kept t s h runs = ground arith

-- None of these makes an update out of an rwmutex that a writer holds.
plan_written :
    (o : RwMutex) (a : Intent) → IsWritten o.status → leaves o.status a ≡ true → plan a o ≡ none
unfolding plan leaves claim_read claim_write release_read release_write
plan_written o (rlock t holder) h l = ground arith
plan_written o (lock t holder) h l = ground arith
plan_written o (runlock holder) h l = ground arith
plan_written o (unlock holder) h l = ground arith
plan_written o (reconcile t) h l = ground (arith, written_kept t o.status)

claim_write_free :
    (t : Time) (holder : String) (m m' : RwMutex)
    → claim_write t holder m ≡ ok m'
    → ((is_blank m.status.write_holder ≡ true) × (m.status.read_holders ≡ []))
      × ((m'.status.write_holder ≡ holder) × (m'.status.read_holders ≡ []))
unfolding claim_write
claim_write_free t holder m m' e = ground (arith, no_reader m.status.read_holders)

claim_read_joins :
    (t : Time) (holder : String) (m m' : RwMutex)
    → claim_read t holder m ≡ ok m'
    → ((is_blank m.status.write_holder ≡ true) × (is_blank m'.status.write_holder ≡ true))
      × (m'.status.read_holders ≡ m.status.read_holders ++ (holder ∷ []))
unfolding claim_read
claim_read_joins t holder m m' e = ground arith

planned_write :
    (t : Time) (holder : String) (m m' : RwMutex)
    → claim_write t holder m ≡ ok m'
    → plan (lock t holder) m ≡ some m'
unfolding plan
planned_write t holder m m' e = ap accepted e

planned_read :
    (t : Time) (holder : String) (m m' : RwMutex)
    → claim_read t holder m ≡ ok m'
    → plan (rlock t holder) m ≡ some m'
unfolding plan
planned_read t holder m m' e = ap accepted e

module _ {W : Type 0} (r : Resource W RwMutexSpec RwMutexStatus)
    (stored : W → ObjectKey → Option RwMutex) (k : ObjectKey) (serves : Serves r stored) where
  Change-Excludes :
      (allowed : Intent → Bool) (o o' : RwMutex)
      → Excludes o.status
      → Change plan allowed o o'
      → Excludes o'.status
  Change-Excludes allowed o o' x (keeps same) = subst Excludes (sym same) x
  Change-Excludes allowed o o' x (becomes a m can planned made) =
      subst Excludes (sym made) (plan-Excludes a o m planned x)

  -- Readers and a writer never hold the lock together: if they do not at first, they do not after
  -- any steps of any processes and of the operator, whatever these do.
  pub always-Excludes :
      {s : System W RwMutexSpec RwMutexStatus} {o : RwMutex}
      {t : System W RwMutexSpec RwMutexStatus}
      → Inv stored k s o
      → Excludes o.status
      → Reach plan r k (λ _. true) s t
      → (o' : RwMutex) × (stored t.world k ≡ some o') × Excludes o'.status
  always-Excludes v x past =
      let (o', v', x') =
        Reach-keeps plan plan_meta r stored k serves (λ _. true) (λ m. Excludes m.status)
          (λ m m'. Change-Excludes (λ _. true) m m') v x past in
      (o', v'.held, x')

  Change-written :
      (st : RwMutexStatus) (o o' : RwMutex)
      → IsWritten st
      → o.status ≡ st
      → Change plan (leaves st) o o'
      → o'.status ≡ st
  Change-written st o o' h e (keeps same) = same ∙ e
  Change-written st o o' h e (becomes a m can planned made) =
      let none_planned =
        plan_written o a (subst IsWritten (sym e) h) (subst (λ x. leaves x a ≡ true) (sym e) can) in
      absurd (cc)

  -- A write lock stays with its holder through any steps of any processes that neither unlock it
  -- for that holder nor reconcile it after its TTL.
  written_until_released :
      {s : System W RwMutexSpec RwMutexStatus} {o : RwMutex}
      {t : System W RwMutexSpec RwMutexStatus}
      → Inv stored k s o
      → IsWritten o.status
      → Reach plan r k (leaves o.status) s t
      → (o' : RwMutex) × (stored t.world k ≡ some o') × (o'.status ≡ o.status)
  written_until_released {o = o} v h past =
      let (o', v', e) =
        Reach-keeps plan plan_meta r stored k serves (leaves o.status) (λ m. m.status ≡ o.status)
          (λ m m' p c. Change-written o.status m m' h p c) v refl past in
      (o', v'.held, e)

  -- A `Lock` whose update the server accepts finds neither a writer nor a reader at that moment,
  -- and leaves its holder as the only one.
  write_takes_free :
      (s : System W RwMutexSpec RwMutexStatus) (o : RwMutex) (i : ℕ) (t : Time) (holder : String)
      (m m' : RwMutex) (w' : W)
      → Inv stored k s o
      → s.seen i ≡ some m
      → claim_write t holder m ≡ ok m'
      → r.status_update m' s.world ≡ (ok tt, w')
      → ((is_blank o.status.write_holder ≡ true) × (o.status.read_holders ≡ []))
        × ((o' : RwMutex) × (stored w' k ≡ some o')
            × ((o'.status.write_holder ≡ holder) × (o'.status.read_holders ≡ [])))
  write_takes_free s o i t holder m m' w' v saw claimed e =
      let (current, made) =
        accepted_current plan plan_meta r stored k serves (λ _. true) s o i (lock t holder) m m' w'
          v saw (planned_write t holder m m' claimed) e in
      let (free, mine) = claim_write_free t holder m m' claimed in
      (
        subst (λ x. (is_blank x.status.write_holder ≡ true) × (x.status.read_holders ≡ [])) current
            free,
        (_, made.is_now, mine),
      )

  -- An `RLock` whose update the server accepts finds no writer at that moment, and adds its holder
  -- to the readers of that moment: none of these is lost.
  read_joins :
      (s : System W RwMutexSpec RwMutexStatus) (o : RwMutex) (i : ℕ) (t : Time) (holder : String)
      (m m' : RwMutex) (w' : W)
      → Inv stored k s o
      → s.seen i ≡ some m
      → claim_read t holder m ≡ ok m'
      → r.status_update m' s.world ≡ (ok tt, w')
      → (is_blank o.status.write_holder ≡ true)
        × ((o' : RwMutex) × (stored w' k ≡ some o')
            × ((is_blank o'.status.write_holder ≡ true)
                × (o'.status.read_holders ≡ o.status.read_holders ++ (holder ∷ []))))
  read_joins s o i t holder m m' w' v saw claimed e =
      let (current, made) =
        accepted_current plan plan_meta r stored k serves (λ _. true) s o i (rlock t holder) m m' w'
          v saw (planned_read t holder m m' claimed) e in
      let (free, mine) = claim_read_joins t holder m m' claimed in
      (
        subst (λ x. is_blank x.status.write_holder ≡ true) current free.0,
        (_, made.is_now, (free.1, mine ∙ ap (λ x. x.status.read_holders ++ (holder ∷ [])) current)),
      )
