-- ===== src/Controllers/Semaphore/Accounting.antt =====
-- The counts that a `Reconcile` of controllers/semaphore_controller.go stores.
use konductor.Prelude.{
  ◌≡◌, refl, ◌↔◌, ℕ, suc, ◌+◌, ◌<◌, ◌^◌, pos, ◌≤ℤ◌, ◌<ℤ◌, ◌+ℤ◌, ◌-ℤ◌, IsInt32, int_laws,
  sub_negative, inl, inr, if◌then◌else◌, int32_of_IsInt32, Bool, List, ◌∷◌, [], length, filter,
  arith,
}
use konductor.Api.Meta.{Time}
use konductor.Api.Errors.{ok, Result-cases}
use konductor.Api.Counters.{Semaphore, SemaphorePhase, Permit}
use konductor.Client.{Client}
use konductor.Controllers.Semaphore.{is_live, account, grant_permit, grant_permits}

abbrev pub live_permits : Time → List Permit → List Permit
live_permits t = filter (λ p. is_live t p.status.expires_at)

-- One round counts a permit if it is valid.
grant_permit_valid :
    {W : Type 0} (c : Client W) (t : Time) (p : Permit) (w : W) (valid : Bool)
    → (grant_permit c t p w).0 ≡ ok valid
    → valid ≡ is_live t p.status.expires_at
unfolding grant_permit
grant_permit_valid c t p w valid h = ground arith

-- The loop, when no update fails, counts the permits that have not expired.
grant_permits_from :
    {W : Type 0} (c : Client W) (t : Time) (ps : List Permit) (k n : ℕ) (w : W)
    → (grant_permits c t ps k w).0 ≡ ok n
    → n ≡ k + length (live_permits t ps)
unfolding grant_permits
grant_permits_from c t [] k n w h = ground arith
grant_permits_from c t (p ∷ ps) k n w h = elim (Result-cases (grant_permit c t p w).0) [
  | inl (e, failed) ↦ ground arith
  | inr (valid, done) ↦ ground (
    arith,
    grant_permit_valid c t p w valid,
    grant_permits_from c t ps (if valid then suc k else k) n (grant_permit c t p w).1,
  )
]

-- When no update of a permit fails, a `Reconcile` counts exactly the permits that have not expired
-- when it reads the clock.
grant_permits_count :
    {W : Type 0} (c : Client W) (t : Time) (ps : List Permit) (n : ℕ) (w : W)
    → (grant_permits c t ps 0 w).0 ≡ ok n
    → n ≡ length (live_permits t ps)
grant_permits_count c t ps n w h = omega (arith, grant_permits_from c t ps 0 n w h)

-- Nothing holds the count below `spec.permits`: with more valid permits than those, all of which a
-- `Reconcile` has granted, the stored number of available permits is negative.
pub account_overdrawn :
    {W : Type 0} (c : Client W) (s : Semaphore) (t : Time) (ps : List Permit) (n : ℕ) (w : W)
    → (grant_permits c t ps 0 w).0 ≡ ok n
    → n < 2 ^ 31
    → pos 0 ≤ℤ s.spec.permits
    → s.spec.permits <ℤ pos (length (live_permits t ps))
    → (account n s).status.available <ℤ pos 0
unfolding account
account_overdrawn c s t ps n w counted small sign more =
    let same = grant_permits_count c t ps n w counted in
    let in_use = int32_of_IsInt32 (pos n) (omega arith) in
    let (fits, less) = sub_negative s.spec.permits n sign (omega (arith, same)) small in
    rw (in_use, int32_of_IsInt32 (s.spec.permits -ℤ pos n) fits) less

-- With permits and count in the range of int32 the stored counts add up to `spec.permits`, and the
-- phase is `Ready` exactly when some permit is left.
account_balanced :
    (s : Semaphore) (n : ℕ)
    → IsInt32 s.spec.permits
    → n < 2 ^ 31
    → IsInt32 (s.spec.permits -ℤ pos n)
    → let after = (account n s).status in
      (after.in_use ≡ pos n)
      × (after.in_use +ℤ after.available ≡ s.spec.permits)
      × ((after.phase ≡ SemaphorePhase.ready) ↔ (pos 0 <ℤ after.available))
unfolding account
account_balanced s n fits small rest =
    let in_use = int32_of_IsInt32 (pos n) (omega arith) in
    let left = int32_of_IsInt32 (s.spec.permits -ℤ pos n) rest in
    rw (in_use, left) (refl, omega int_laws, ground arith)
