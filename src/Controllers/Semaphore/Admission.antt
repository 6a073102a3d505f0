-- ===== src/Controllers/Semaphore/Admission.antt =====
-- Which permits are granted after a `Reconcile` of controllers/semaphore_controller.go.
use konductor.Prelude.{
  ◌≡◌, sym, ◌∙◌, subst, ap, inl, inr, ℕ, true, false, Bool-cases, String, Option, some, eq_of_some,
  List, [], ◌∷◌, All, arith,
}
use konductor.Api.Meta.{ObjectKey, Object, key_of, same_key}
use konductor.Api.Errors.{ok}
use konductor.Api.Counters.{Semaphore, Permit, is_unset_semaphore}
use konductor.Client.{Client}
use konductor.Client.Server.{Serves}
use konductor.Client.Server.Collection.{Collects, has_labels, is_listed, same_key-eq}
use konductor.Controllers.Outcome.{Reconciled}
use konductor.Controllers.Semaphore.{is_live, account, grant_permits, settle, reconcile}
use konductor.Controllers.Semaphore.Granting.{Granted, Current, loop_grants}

-- One of the objects that a list has under a key.
pick :
    {S T : Type 0} (P : Object S T → Type 0) (k : ObjectKey) (os : List (Object S T))
    → is_listed k os ≡ true
    → All P os
    → (o : Object S T) × (key_of o.meta ≡ k) × P o
pick P k [] e all = absurd (cc)
pick P k (o ∷ os) e all = elim (Bool-cases (same_key k (key_of o.meta))) [
  | inl hit ↦ (o, sym (same_key-eq k (key_of o.meta) hit), all.0)
  | inr miss ↦ pick P k os (ground arith) all.1
]

module _ {A : Type 0} (P Q : A → Type 0) where
  All-map : (f : (a : A) → P a → Q a) (xs : List A) → All P xs → All Q xs
  All-map f [] all = tt
  All-map f (x ∷ xs) all = (f x all.0, All-map f xs all.1)

  All-both : (xs : List A) → All P xs → All Q xs → All (λ a. P a × Q a) xs
  All-both [] p q = tt
  All-both (x ∷ xs) p q = ((p.0, q.0), All-both xs p.1 q.1)

-- After the loop over the permits a `Reconcile` sends the count, and ends.
ends_with_count :
    {W : Type 0} (c : Client W) (req : ObjectKey) (s : Semaphore) (ps : List Permit) (n : ℕ)
    (w v1 v2 u w' : W) (out : Reconciled)
    → c.semaphores.get req w ≡ (ok s, v1)
    → is_unset_semaphore s.status.phase ≡ false
    → c.permits.list req.namespace (("semaphore", s.meta.name) ∷ []) v1 ≡ (ok ps, v2)
    → grant_permits c (c.clock v2) ps 0 v2 ≡ (ok n, u)
    → reconcile c req w ≡ (out, w')
    → w' ≡ (c.semaphores.status_update (account n s) u).1
unfolding reconcile settle
ends_with_count c req s ps n w v1 v2 u w' out found phased listed looped e = ground arith

module _ {W : Type 0} (c : Client W) (permits : W → ObjectKey → Option Permit)
    (serves : Serves c.permits permits) (collects : Collects c.permits permits)
    (update_apart : (s : Semaphore) (w : W) (k : ObjectKey)
      → permits (c.semaphores.status_update s w).1 k ≡ permits w k) where
  listed-Granted :
      (k : ObjectKey) (req : ObjectKey) (name : String) (p : Permit) (ps : List Permit)
      (v1 v2 u : W) (n : ℕ)
      → c.permits.list req.namespace (("semaphore", name) ∷ []) v1 ≡ (ok ps, v2)
      → permits v1 k ≡ some p
      → k.namespace ≡ req.namespace
      → has_labels (("semaphore", name) ∷ []) p.meta.labels ≡ true
      → is_live (c.clock v2) p.status.expires_at ≡ true
      → grant_permits c (c.clock v2) ps 0 v2 ≡ (ok n, u)
      → Granted c permits serves u k
  listed-Granted k req name p ps v1 v2 u n listed there here labelled live looped =
      let labels = ("semaphore", name) ∷ [] in
      let stored_now = collects.list_stored req.namespace labels v1 v2 listed in
      let is_there : Permit → Type 0 = λ q. permits v2 (key_of q.meta) ≡ some q in
      let current = All-map is_there (Current c permits serves v2) (λ q e. inl e) ps stored_now in
      let grants = loop_grants c permits serves (c.clock v2) ps 0 n v2 u looped current in
      let hit = collects.list_complete req.namespace labels v1 v2 k p listed there here labelled in
      let (q, at, (stored_q, granted_if_live)) =
        pick _ k ps hit (All-both _ _ ps stored_now grants) in
      let still : permits v2 k ≡ some p =
        ap (λ x. permits x.1 k) (sym listed)
        ∙ collects.list_keeps req.namespace labels v1 k
        ∙ there in
      let same : q ≡ p =
        eq_of_some (sym (subst (λ x. permits v2 x ≡ some q) at stored_q) ∙ still) in
      subst (Granted c permits serves u) at (granted_if_live (rw same live))

  -- A permit of a semaphore that has not expired when a Reconcile of the semaphore reads the clock is
  -- granted afterwards, whatever the number of the others and whatever becomes of the update of the
  -- semaphore, if this has its phase already and no update of a permit fails.
  pub live_permit-Granted :
      (k : ObjectKey) (req : ObjectKey) (s : Semaphore) (p : Permit) (ps : List Permit) (n : ℕ)
      (w v1 v2 u w' : W) (out : Reconciled)
      → c.semaphores.get req w ≡ (ok s, v1)
      → is_unset_semaphore s.status.phase ≡ false
      → c.permits.list req.namespace (("semaphore", s.meta.name) ∷ []) v1 ≡ (ok ps, v2)
      → permits v1 k ≡ some p
      → k.namespace ≡ req.namespace
      → has_labels (("semaphore", s.meta.name) ∷ []) p.meta.labels ≡ true
      → is_live (c.clock v2) p.status.expires_at ≡ true
      → grant_permits c (c.clock v2) ps 0 v2 ≡ (ok n, u)
      → reconcile c req w ≡ (out, w')
      → Granted c permits serves w' k
  live_permit-Granted k req s p ps n w v1 v2 u w' out found phased listed there here labelled live
        looped e =
      let g =
        listed-Granted k req s.meta.name p ps v1 v2 u n listed there here labelled live looped in
      let last = ends_with_count c req s ps n w v1 v2 u w' out found phased listed looped e in
      record {
        permit = g.permit;
        is_there =
            subst (λ x. permits x k ≡ some g.permit) (sym last)
              (update_apart (account n s) u k ∙ g.is_there);
        granted = g.granted;
      }
