-- ===== src/Controllers/Lease/Starvation.antt =====
-- A holder that does not delete its request, in controllers/lease_controller.go.
use konductor.Prelude.{
  ◌≡◌, refl, sym, ◌∙◌, ap, subst, ltb_ℤ, ℤ, negsuc, pos, true, Bool-cases, inl, inr, Option, none,
  some, List, [], ◌∷◌, eq_of_some,
}
use konductor.Api.Meta.{ObjectKey}
use konductor.Api.Errors.{ok}
use konductor.Api.Leases.{Lease, LeasePhase, LeaseRequest}
use konductor.Client.{Client}
use konductor.Client.Server.{Serves, update_stored}
use konductor.Controllers.Mutex.{is_expired}
use konductor.Controllers.Lease.{
  or_zero, priority_of, select, best_request, grant, expiry, reconcile,
}
use konductor.Controllers.Lease.Tenure.{reconcile_expired}

-- The same requests in the same order, whatever marks they have.
abbrev pub SameSpecs : List LeaseRequest → List LeaseRequest → Type 0
SameSpecs [] [] = Unit
SameSpecs (r ∷ rs) (s ∷ ss) = (r.spec ≡ s.spec) × SameSpecs rs ss
SameSpecs [] (s ∷ ss) = ⊥
SameSpecs (r ∷ rs) [] = ⊥

abbrev SameSpec : Option LeaseRequest → Option LeaseRequest → Type 0
SameSpec none none = Unit
SameSpec (some r) (some s) = r.spec ≡ s.spec
SameSpec none (some s) = ⊥
SameSpec (some r) none = ⊥

same_priority : (r s : LeaseRequest) → r.spec ≡ s.spec → priority_of r ≡ priority_of s
same_priority r s e = ap (λ x. or_zero x.priority) e

same_test : (a b c d : ℤ) → a ≡ c → b ≡ d → ltb_ℤ a b ≡ ltb_ℤ c d
same_test a b c d p q = ap (λ x. ltb_ℤ x b) p ∙ ap (λ x. ltb_ℤ c x) q

select_same :
    (best best' : Option LeaseRequest) (h h' : ℤ) (rs ss : List LeaseRequest)
    → SameSpec best best'
    → h ≡ h'
    → SameSpecs rs ss
    → SameSpec (select best h rs) (select best' h' ss)
unfolding select
select_same best best' h h' [] [] same high all = same
select_same best best' h h' [] (s ∷ ss) same high all = elim all [ ]
select_same best best' h h' (r ∷ rs) [] same high all = elim all [ ]
select_same none none h h' (r ∷ rs) (s ∷ ss) same high (e, all) =
    select_same (some r) (some s) (priority_of r) (priority_of s) rs ss e (same_priority r s e) all
select_same (some b) (some b') h h' (r ∷ rs) (s ∷ ss) same high (e, all) =
    let prio = same_priority r s e in
    let test = same_test h (priority_of r) h' (priority_of s) high prio in
    elim (Bool-cases (ltb_ℤ h (priority_of r))) [
      | inl better ↦
          rw (better, sym test ∙ better)
            (select_same (some r) (some s) (priority_of r) (priority_of s) rs ss e prio all)
      | inr worse ↦
          rw (worse, sym test ∙ worse) (select_same (some b) (some b') h h' rs ss same high all)
    ]
select_same none (some b') h h' (r ∷ rs) (s ∷ ss) same high all = elim same [ ]
select_same (some b) none h h' (r ∷ rs) (s ∷ ss) same high all = elim same [ ]

same_some :
    (o : Option LeaseRequest) (r : LeaseRequest)
    → SameSpec (some r) o
    → (s : LeaseRequest) × (o ≡ some s) × (r.spec ≡ s.spec)
same_some none r same = elim same [ ]
same_some (some s) r same = (s, refl, same)

-- The choice depends on the specs and the order of the requests, and not on which are granted.
pub best_request_same :
    (rs ss : List LeaseRequest) (r : LeaseRequest)
    → best_request rs ≡ some r
    → SameSpecs rs ss
    → (s : LeaseRequest) × (best_request ss ≡ some s) × (r.spec ≡ s.spec)
best_request_same rs ss r chosen same = same_some (best_request ss) r (
    subst (λ o. SameSpec o (best_request ss)) chosen
      (select_same none none (negsuc 0) (negsuc 0) rs ss tt refl same))

-- If the holder of a lease whose term is over was chosen from some requests, and the requests are
-- still the same but for their marks, then a Reconcile of which no call fails gives the lease to
-- that holder again: a request that has been granted counts like any other.
pub expired_holder_regains :
    {W : Type 0} (c : Client W) (leases : W → ObjectKey → Option Lease)
    → Serves c.leases leases
    → (req : ObjectKey) (lease : Lease) (earlier requests : List LeaseRequest)
      (first again : LeaseRequest) (w w1 w2 w3 w4 : W)
    → best_request earlier ≡ some first
    → lease.status.holder ≡ first.spec.holder
    → SameSpecs earlier requests
    → c.leases.get req w ≡ (ok lease, w1)
    → is_expired lease.status.expires_at (c.clock w1) ≡ true
    → c.lease_requests.list req.namespace (("lease", lease.meta.name) ∷ []) w1 ≡ (ok requests, w2)
    → best_request requests ≡ some again
    → c.lease_requests.status_update (grant again) w2 ≡ (ok tt, w3)
    → c.leases.status_update
        (record lease {
          status = record {
            holder = again.spec.holder;
            phase = LeasePhase.held;
            acquired_at = some (c.clock w2);
            expires_at = expiry (c.clock w2) lease.spec.ttl none;
            renew_count = pos 0;
          };
        })
        w3
      ≡ (ok tt, w4)
    → (o : Lease) × (leases (reconcile c req w).1 req ≡ some o)
      × (o.status.holder ≡ lease.status.holder)
      × (o.status.phase ≡ LeasePhase.held)
expired_holder_regains c leases serves req lease earlier requests first again w w1 w2 w3 w4 chosen
      mine same got over listed picked marked written =
    let (s, it, specs) = best_request_same earlier requests first chosen same in
    let is_again : s ≡ again = eq_of_some (sym it ∙ picked) in
    let holder : again.spec.holder ≡ lease.status.holder =
      ap (λ x. x.spec.holder) (sym is_again) ∙ ap (λ x. x.holder) (sym specs) ∙ sym mine in
    let last =
      reconcile_expired c req lease requests again w w1 w2 w3 w4 got over listed picked marked
        written in
    let (o, there, status) =
      update_stored c.leases leases serves req _ w3 w4
        (serves.key_stored req w (serves.get-ok req w w1 got)) written in
    (
      o,
      ap (λ x. leases x req) last ∙ there,
      ap (λ x. x.holder) status ∙ holder,
      ap (λ x. x.phase) status,
    )
