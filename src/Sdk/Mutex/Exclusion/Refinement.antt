-- ===== src/Sdk/Mutex/Exclusion/Refinement.antt =====
-- The processes of sdk/go/mutex/mutex.go and controllers/mutex_controller.go implement a lock that
-- is free, or taken by one holder until a time.
use konductor.Prelude.{
  ◌≡◌, ◌⊎◌, inl, inr, true, false, Bool-cases, not, ◌&&◌, String, str_eq, is_blank, Option, none,
  some, if◌then◌else◌, arith,
}
use konductor.Api.Meta.{Time, Duration, ObjectKey}
use konductor.Api.Locks.{Mutex, MutexSpec, MutexStatus, is_locked}
use konductor.Client.Server.{Resource, Serves}
use konductor.Controllers.Mutex.{is_expired}
use konductor.Controllers.Mutex.Expiry
use konductor.Sdk.Mutex.{expiry, claim, release}
use konductor.Client.Race.{System, Reach, Inv}
use konductor.Client.Race.Serial.{log}
use konductor.Client.Race.Refinement.{Run, Reach-Run}
use konductor.Sdk.Mutex.Exclusion.{Intent, lock, unlock, reconcile, plan, plan_meta}

-- The abstract lock: free, or taken by a holder until a time, if there is one.
pub record Tenure : Type 0 where
  pub holder : String
  pub until : Option Time

abbrev pub Lock : Type 0
Lock = Option Tenure

-- What it may do, for a TTL: a holder takes it when it is free, that holder frees it, or its time
-- is over. Any other intent that the server accepts leaves it free.
pub data Moves (ttl : Option Duration) : Intent → Lock → Lock → Type 0 where
  takes :
      {t : Time} {holder : String} (old : Option Time)
      → is_blank holder ≡ false
      → Moves ttl (lock t holder) none (some (record { holder = holder; until = expiry t ttl old }))
  frees :
      {holder : String} {tenure : Tenure}
      → str_eq tenure.holder holder ≡ true
      → Moves ttl (unlock holder) (some tenure) none
  expires :
      {t : Time} {tenure : Tenure}
      → is_expired tenure.until t ≡ true
      → Moves ttl (reconcile t) (some tenure) none
  idles : {a : Intent} → Moves ttl a none none

-- The lock that a status stands for.
unfoldable pub view : MutexStatus → Lock
view s =
    if is_locked s.phase && not (is_blank s.holder)
    then some (record { holder = s.holder; until = s.expires_at })
    else none

-- What each kind of update makes of the view.
locked_view :
    (t : Time) (holder : String) (o m : Mutex)
    → plan (lock t holder) o ≡ some m
    → (view o.status ≡ none)
      × (view m.status ≡ (
          if is_blank holder
          then none
          else some (record { holder = holder; until = expiry t o.spec.ttl o.status.expires_at })))
unfolding plan view claim
locked_view t holder o m e = ground arith

unlocked_view :
    (holder : String) (o m : Mutex)
    → plan (unlock holder) o ≡ some m
    → (str_eq o.status.holder holder ≡ true) × (view m.status ≡ none)
unfolding plan view release
unlocked_view holder o m e = ground arith

reconciled_view : (t : Time) (o m : Mutex) → plan (reconcile t) o ≡ some m → view m.status ≡ none
unfolding plan view
reconciled_view t o m e = ground (arith, Expiry.refresh_unlocks t o.status)

-- A lock whose time runs is not updated.
reconciled_late :
    (t : Time) (o m : Mutex)
    → plan (reconcile t) o ≡ some m
    → is_blank o.status.holder ≡ false
    → is_expired o.status.expires_at t ≡ true
unfolding plan
reconciled_late t o m e named = elim (Bool-cases (is_expired o.status.expires_at t)) [
  | inl late ↦ late
  | inr runs ↦
      let kept = Expiry.refresh_held t o.status (record { named = named; in_term = runs }) in
      absurd (ground arith)
]

-- The two kinds of views.
view-cases :
    (s : MutexStatus)
    → (view s ≡ none)
      ⊎ ((is_blank s.holder ≡ false)
          × (view s ≡ some (record { holder = s.holder; until = s.expires_at })))
unfolding view
view-cases s = ground arith

plan-Moves :
    (a : Intent) (o m : Mutex)
    → plan a o ≡ some m
    → Moves o.spec.ttl a (view o.status) (view m.status)
plan-Moves (lock t holder) o m e =
    let (free, taken) = locked_view t holder o m e in
    elim (Bool-cases (is_blank holder)) [
      | inl blank ↦ rw (free, taken, blank) idles
      | inr named ↦ rw (free, taken, named) (takes o.status.expires_at named)
    ]
plan-Moves (unlock holder) o m e =
    let (own, free) = unlocked_view holder o m e in
    elim (view-cases o.status) [
      | inl idle ↦ rw (idle, free) idles
      | inr (named, held) ↦ rw (held, free) (frees own)
    ]
plan-Moves (reconcile t) o m e =
    let free = reconciled_view t o m e in
    elim (view-cases o.status) [
      | inl idle ↦ rw (idle, free) idles
      | inr (named, held) ↦ rw (held, free) (expires (reconciled_late t o m e named))
    ]

module _ {W : Type 0} (r : Resource W MutexSpec MutexStatus) (stored : W → ObjectKey → Option Mutex)
    (k : ObjectKey) (serves : Serves r stored) where
  -- However the calls of any number of processes and of the operator interleave, the stored mutex
  -- is that of a run of the abstract lock, by the intents whose updates the server accepted: it is
  -- only taken while it is free, and then only freed by its holder or after its time.
  pub mutex_refines :
      {s : System W MutexSpec MutexStatus} {o : Mutex} {t : System W MutexSpec MutexStatus}
      → Inv stored k s o
      → (past : Reach plan r k (λ _. true) s t)
      → (o' : Mutex) × (stored t.world k ≡ some o')
        × Run (Moves o.spec.ttl) (view o.status) (log past) (view o'.status)
  mutex_refines v past =
      Reach-Run plan (λ spec. Moves spec.ttl) view plan-Moves plan_meta r stored k serves v past
