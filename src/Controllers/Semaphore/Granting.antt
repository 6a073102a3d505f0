-- ===== src/Controllers/Semaphore/Granting.antt =====
-- What a `Reconcile` of controllers/semaphore_controller.go does to the permits.
use konductor.Prelude.{
  ◌≡◌, refl, sym, ◌∙◌, subst, ap, ◌⊎◌, inl, inr, ℕ, suc, Bool, true, false, Bool-cases, Option,
  some, List, [], ◌∷◌, All, if◌then◌else◌, arith,
}
use konductor.Api.Meta.{Time, ObjectKey, key_of, same_key}
use konductor.Api.Errors.{Result-cases, ok}
use konductor.Api.Counters.{Permit, is_granted}
use konductor.Client.{Client}
use konductor.Client.Server.{Serves}
use konductor.Client.Server.Collection.{same_key-eq}
use konductor.Controllers.Semaphore.{is_live, grant, grant_permit, grant_permits}

module _ {W : Type 0} (c : Client W) (permits : W → ObjectKey → Option Permit)
    (serves : Serves c.permits permits) where
  pub record Granted (w : W) (k : ObjectKey) : Type 0 where
    pub permit : Permit
    pub is_there : permits w k ≡ some permit
    pub granted : is_granted permit.status.phase ≡ true

  -- A permit of the list is stored as it was listed, unless it has been granted since.
  abbrev pub Current : W → Permit → Type 0
  Current w p = (permits w (key_of p.meta) ≡ some p) ⊎ Granted w (key_of p.meta)

  Granted-now :
      (p : Permit) (w w' : W)
      → c.permits.status_update (grant p) w ≡ (ok tt, w')
      → Granted w' (key_of p.meta)
  Granted-now p w w' e =
      let made = serves.update-ok (grant p) w w' e in
      record { permit = _; is_there = made.is_now; granted = refl }

  -- The update of one permit changes no other.
  grant_elsewhere :
      (p : Permit) (w w' : W) (k : ObjectKey)
      → c.permits.status_update (grant p) w ≡ (ok tt, w')
      → same_key k (key_of p.meta) ≡ false
      → permits w' k ≡ permits w k
  grant_elsewhere p w w' k e other =
      ap (λ x. permits x.1 k) (sym e) ∙ serves.update_elsewhere (grant p) w k other

  module _ (t : Time) where
    -- A round of the loop leaves the world alone, or stores its permit as granted.
    grant_permit-cases :
        (p : Permit) (w w' : W) (valid : Bool)
        → grant_permit c t p w ≡ (ok valid, w')
        → ((w' ≡ w) × ((is_live t p.status.expires_at ≡ true) → (is_granted p.status.phase ≡ true)))
          ⊎ (c.permits.status_update (grant p) w ≡ (ok tt, w'))
    unfolding grant_permit
    grant_permit-cases p w w' valid e = elim (Bool-cases (is_live t p.status.expires_at)) [
      | inr over ↦ inl (ground arith, λ live. absurd (cc))
      | inl live ↦ elim (Bool-cases (is_granted p.status.phase)) [
        | inl had ↦ inl (ground arith, λ _. had)
        | inr fresh ↦ elim (Result-cases (c.permits.status_update (grant p) w).0) [
          | inl (x, refused) ↦ absurd (ground arith)
          | inr (_, written) ↦ inr (ground arith)
        ]
      ]
    ]

    keeps_Granted :
        (p : Permit) (w w' : W) (k : ObjectKey) (valid : Bool)
        → grant_permit c t p w ≡ (ok valid, w')
        → Granted w k
        → Granted w' k
    keeps_Granted p w w' k valid e g = elim (grant_permit-cases p w w' valid e) [
      | inl (same, _) ↦ subst (λ x. Granted x k) (sym same) g
      | inr written ↦ elim (Bool-cases (same_key k (key_of p.meta))) [
        | inl own ↦
            subst (Granted w') (sym (same_key-eq k (key_of p.meta) own))
              (Granted-now p w w' written)
        | inr other ↦ record {
          permit = g.permit;
          is_there = grant_elsewhere p w w' k written other ∙ g.is_there;
          granted = g.granted;
        }
      ]
    ]

    keeps_Current :
        (p q : Permit) (w w' : W) (valid : Bool)
        → grant_permit c t p w ≡ (ok valid, w')
        → Current w q
        → Current w' q
    keeps_Current p q w w' valid e (inr g) = inr (keeps_Granted p w w' (key_of q.meta) valid e g)
    keeps_Current p q w w' valid e (inl there) = elim (grant_permit-cases p w w' valid e) [
      | inl (same, _) ↦ inl (subst (λ x. permits x (key_of q.meta) ≡ some q) (sym same) there)
      | inr written ↦ elim (Bool-cases (same_key (key_of q.meta) (key_of p.meta))) [
        | inl own ↦ inr (
            subst (Granted w') (sym (same_key-eq (key_of q.meta) (key_of p.meta) own))
              (Granted-now p w w' written))
        | inr other ↦ inl (grant_elsewhere p w w' (key_of q.meta) written other ∙ there)
      ]
    ]

    all-Current :
        (p : Permit) (ps : List Permit) (w w' : W) (valid : Bool)
        → grant_permit c t p w ≡ (ok valid, w')
        → All (Current w) ps
        → All (Current w') ps
    all-Current p [] w w' valid e all = tt
    all-Current p (q ∷ ps) w w' valid e all =
        (keeps_Current p q w w' valid e all.0, all-Current p ps w w' valid e all.1)

    own-Granted :
        (p : Permit) (w w' : W) (valid : Bool)
        → grant_permit c t p w ≡ (ok valid, w')
        → is_live t p.status.expires_at ≡ true
        → Current w p
        → Granted w' (key_of p.meta)
    own-Granted p w w' valid e live (inr g) = keeps_Granted p w w' (key_of p.meta) valid e g
    own-Granted p w w' valid e live (inl there) = elim (grant_permit-cases p w w' valid e) [
      | inr written ↦ Granted-now p w w' written
      | inl (same, had) ↦ record {
        permit = p;
        is_there = subst (λ x. permits x (key_of p.meta) ≡ some p) (sym same) there;
        granted = had live;
      }
    ]

    -- A loop that ends with a count is a round and a loop.
    grant_permits-cons :
        (p : Permit) (ps : List Permit) (k n : ℕ) (w w' : W)
        → grant_permits c t (p ∷ ps) k w ≡ (ok n, w')
        → (valid : Bool) × (u : W) × (grant_permit c t p w ≡ (ok valid, u))
          × (grant_permits c t ps (if valid then suc k else k) u ≡ (ok n, w'))
    unfolding grant_permits
    grant_permits-cons p ps k n w w' e = elim (Result-cases (grant_permit c t p w).0) [
      | inl (x, failed) ↦ absurd (ground arith)
      | inr (valid, done) ↦ (valid, (grant_permit c t p w).1, ground arith, ground arith)
    ]

    loop_keeps :
        (ps : List Permit) (k n : ℕ) (w w' : W) (j : ObjectKey)
        → grant_permits c t ps k w ≡ (ok n, w')
        → Granted w j
        → Granted w' j
    unfolding grant_permits
    loop_keeps [] k n w w' j e g = subst (λ x. Granted x j) (ap (λ x. x.1) e) g
    loop_keeps (p ∷ ps) k n w w' j e g =
        let (valid, u, first, rest) = grant_permits-cons p ps k n w w' e in
        loop_keeps ps (if valid then suc k else k) n u w' j rest
          (keeps_Granted p w u j valid first g)

    -- The loop, if it ends with a count, leaves every permit granted that has not expired.
    pub loop_grants :
        (ps : List Permit) (k n : ℕ) (w w' : W)
        → grant_permits c t ps k w ≡ (ok n, w')
        → All (Current w) ps
        → All (λ p. is_live t p.status.expires_at ≡ true → Granted w' (key_of p.meta)) ps
    loop_grants [] k n w w' e all = tt
    loop_grants (p ∷ ps) k n w w' e all =
        let (valid, u, first, rest) = grant_permits-cons p ps k n w w' e in
        let k' = if valid then suc k else k in
        (
          λ live.
              loop_keeps ps k' n u w' (key_of p.meta) rest
                (own-Granted p w u valid first live all.0),
          loop_grants ps k' n u w' rest (all-Current p ps w u valid first all.1),
        )
