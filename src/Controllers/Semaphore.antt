-- ===== src/Controllers/Semaphore.antt =====
-- controllers/semaphore_controller.go
pub mod Accounting
pub mod Admission
pub mod Granting
pub mod Overdraft
use konductor.Prelude.{
  ℕ, suc, ◌*◌, pos, ◌-ℤ◌, ltb_ℤ, eqb_ℤ, int32, Bool, true, false, not, ◌||◌, Option, none, some,
  List, [], ◌∷◌, Action, return, ◌>>=◌, if◌then◌else◌,
}
use konductor.Api.Meta.{Time, ObjectKey, after, second, minute}
use konductor.Api.Errors.{Result, ok, err}
use konductor.Api.Counters.{
  Semaphore, SemaphorePhase, SemaphoreStatus, Permit, PermitPhase, is_unset_semaphore, is_granted,
}
use konductor.Client.{Client, now}
use konductor.Controllers.Outcome.{Reconciled, stop, fail, requeue_in, not_found_or}

abbrev pub is_live : Time → Option Time → Bool
is_live t none = true
is_live t (some expires) = after expires t

-- The initial status of a semaphore that has no phase yet.
pub initial : Semaphore → Semaphore
initial s = record s {
  status = record { available = s.spec.permits; in_use = pos 0; phase = SemaphorePhase.ready };
}

-- The status that `n` valid permits make.
unfoldable pub account : ℕ → Semaphore → Semaphore
account n s =
    let available = int32 (s.spec.permits -ℤ int32 (pos n)) in
    record s {
      status = record {
        in_use = int32 (pos n);
        available = available;
        phase = if ltb_ℤ (pos 0) available then SemaphorePhase.ready else SemaphorePhase.full;
      };
    }

-- The requeue interval adapts to what has changed.
unfoldable pub interval : SemaphoreStatus → SemaphoreStatus → ℕ
interval old new =
    if not (eqb_ℤ old.in_use new.in_use) || not (eqb_ℤ old.available new.available)
    then 10 * second
    else minute

abbrev pub grant : Permit → Permit
grant p = record p { status = record p.status { phase = PermitPhase.granted } }

module _ {W : Type 0} (c : Client W) where
  -- One round of the loop over the permits: a valid one is granted, if it is not yet. The result is
  -- whether it is valid.
  unfoldable pub grant_permit : Time → Permit → Action W (Result Bool)
  grant_permit t p =
      if is_live t p.status.expires_at
      then if is_granted p.status.phase then return (ok true) else (do
        written ← c.permits.status_update (grant p)
        return (elim written [ err e ↦ err e | ok _ ↦ ok true ]))
      else return (ok false)

  unfoldable pub grant_permits : Time → List Permit → ℕ → Action W (Result ℕ)
  grant_permits t [] n = return (ok n)
  grant_permits t (p ∷ ps) n = do
    r ← grant_permit t p
    elim r [ err e ↦ return (err e) | ok valid ↦ grant_permits t ps (if valid then suc n else n) ]

  pub initialize : Semaphore → Action W Reconciled
  unfolding initial
  initialize s = do
    written ← c.semaphores.status_update (initial s)
    return (elim written [ err e ↦ fail e | ok _ ↦ stop ])

  unfoldable pub settle : Semaphore → ℕ → Action W Reconciled
  unfolding account interval
  settle s n = do
    written ← c.semaphores.status_update (account n s)
    return (elim written [
      | err e ↦ fail e
      | ok _ ↦ requeue_in (pos (interval s.status (account n s).status))
    ])

  unfoldable pub reconcile : ObjectKey → Action W Reconciled
  reconcile req = do
    found ← c.semaphores.get req
    elim found [
      | err e ↦ return (not_found_or e)
      | ok s ↦ if is_unset_semaphore s.status.phase then initialize s else (do
        listed ← c.permits.list req.namespace (("semaphore", s.meta.name) ∷ [])
        elim listed [
          | err e ↦ return (fail e)
          | ok permits ↦ do
            t ← now c
            counted ← grant_permits t permits 0
            elim counted [ err e ↦ return (fail e) | ok n ↦ settle s n ]
        ])
    ]
