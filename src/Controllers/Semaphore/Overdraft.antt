-- ===== src/Controllers/Semaphore/Overdraft.antt =====
-- A semaphore with more valid permits than it has, in controllers/semaphore_controller.go.
use konductor.Prelude.{
  ◌≡◌, inl, inr, ℕ, ◌<◌, ◌^◌, pos, ◌≤ℤ◌, ◌<ℤ◌, false, Bool, some, List, length, [], ◌∷◌, arith,
}
use konductor.Api.Meta.{ObjectKey}
use konductor.Api.Errors.{Error, Result-cases, ok}
use konductor.Api.Counters.{Semaphore, SemaphoreSpec, Permit, is_unset_semaphore}
use konductor.Api.Schema.{semaphore_status_valid}
use konductor.Client.{Client}
use konductor.Client.Server.Validation.{Enforces}
use konductor.Controllers.Outcome.{Reconciled}
use konductor.Controllers.Semaphore.{account, grant_permits, settle, reconcile}
use konductor.Controllers.Semaphore.Accounting.{live_permits, account_overdrawn}

settle_refused :
    {W : Type 0} (c : Client W) (spec_valid : SemaphoreSpec → Bool) (s : Semaphore) (n : ℕ)
    (w w' : W) (out : Reconciled)
    → Enforces c.semaphores spec_valid semaphore_status_valid
    → (account n s).status.available <ℤ pos 0
    → settle c s n w ≡ (out, w')
    → (e : Error) × (out.error ≡ some e)
unfolding settle
settle_refused c spec_valid s n w w' out enforces negative e =
    let written = c.semaphores.status_update (account n s) w in
    elim (Result-cases written.0) [
      | inl (x, refused) ↦ (x, ground arith)
      | inr (_, done) ↦
          let valid = enforces.status_update-valid (account n s) w written.1 (ground arith) in
          absurd (ground arith)
    ]

-- With more permits that have not expired than the semaphore has, and fewer than 2 ^ 31, a Reconcile
-- that reads them and grants them with no error ends with an error itself, if the server enforces
-- the schema: the number of available permits that it sends is negative.
pub overdrawn_fails :
    {W : Type 0} (c : Client W) (spec_valid : SemaphoreSpec → Bool) (req : ObjectKey)
    (s : Semaphore) (ps : List Permit) (n : ℕ) (w v1 v2 u w' : W) (out : Reconciled)
    → Enforces c.semaphores spec_valid semaphore_status_valid
    → c.semaphores.get req w ≡ (ok s, v1)
    → is_unset_semaphore s.status.phase ≡ false
    → c.permits.list req.namespace (("semaphore", s.meta.name) ∷ []) v1 ≡ (ok ps, v2)
    → grant_permits c (c.clock v2) ps 0 v2 ≡ (ok n, u)
    → n < 2 ^ 31
    → pos 0 ≤ℤ s.spec.permits
    → s.spec.permits <ℤ pos (length (live_permits (c.clock v2) ps))
    → reconcile c req w ≡ (out, w')
    → (e : Error) × (out.error ≡ some e)
unfolding reconcile
overdrawn_fails c spec_valid req s ps n w v1 v2 u w' out enforces found phased listed granted small
      sign more e =
    let counted : (grant_permits c (c.clock v2) ps 0 v2).0 ≡ ok n = cc in
    settle_refused c spec_valid s n u w' out enforces
      (account_overdrawn c s (c.clock v2) ps n v2 counted small sign more) (ground arith)
