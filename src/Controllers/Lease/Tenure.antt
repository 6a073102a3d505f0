-- ===== src/Controllers/Lease/Tenure.antt =====
-- Who holds a lease across a `Reconcile`, and what a refused update of the lease leaves behind.
use konductor.Prelude.{
  ◌≡◌, refl, sym, ◌∙◌, ap, inl, inr, String, true, false, some, none, Option, List, ◌∷◌, [],
  is_blank, pos, arith,
}
use konductor.Api.Meta.{Time, ObjectKey}
use konductor.Api.Errors.{Result-cases, ok}
use konductor.Api.Leases.{Lease, LeaseStatus, LeasePhase, LeaseRequest, is_available}
use konductor.Client.{Client}
use konductor.Client.Server.{Serves, update_stored, read_stored}
use konductor.Controllers.Mutex.{is_expired}
use konductor.Controllers.Lease.{
  requeue_held, expire, free_unheld, refresh, store, grant, best_request, expiry, reconcile,
}

-- A status that a holder keeps: its term is not over, and its phase is not `Available`.
pub record IsHeld (t : Time) (s : LeaseStatus) : Type 0 where
  pub named : is_blank s.holder ≡ false
  pub in_term : is_expired s.expires_at t ≡ false
  pub taken : is_available s.phase ≡ false

refresh_held : (t : Time) (s : LeaseStatus) → IsHeld t s → refresh t s ≡ s
unfolding refresh
refresh_held t s h = ground arith

expire_over :
    (t : Time) (s : LeaseStatus)
    → is_expired s.expires_at t ≡ true
    → expire t s
      ≡ record s { phase = LeasePhase.expired; holder = ""; acquired_at = none; expires_at = none }
unfolding expire
expire_over t s h = rw h

pub refresh_over :
    (t : Time) (s : LeaseStatus)
    → is_expired s.expires_at t ≡ true
    → refresh t s ≡ record s {
      phase = LeasePhase.available;
      holder = "";
      acquired_at = none;
      expires_at = none;
    }
unfolding refresh
refresh_over t s h = ap free_unheld (expire_over t s h)

requeue_held_keeps :
    {W : Type 0} (c : Client W) (e : Option Time) (w : W) → (requeue_held c e w).1 ≡ w
unfolding requeue_held
requeue_held_keeps c none w = refl
requeue_held_keeps c (some e) w = refl

-- To store a lease is one update, whatever the server answers.
store_updates :
    {W : Type 0} (c : Client W) (l : Lease) (w : W)
    → (store c l w).1 ≡ (c.leases.status_update l w).1
unfolding store
store_updates c l w = elim (Result-cases (c.leases.status_update l w).0) [
  | inl (x, refused) ↦ ground arith
  | inr (_, written) ↦
      let last = requeue_held_keeps c l.status.expires_at (c.leases.status_update l w).1 in
      ground arith
]

module _ {W : Type 0} (c : Client W) (leases : W → ObjectKey → Option Lease)
    (serves : Serves c.leases leases) where
  -- An update with the status that is stored leaves it in its place.
  update_same :
      (k : ObjectKey) (l : Lease) (w : W)
      → leases w k ≡ some l
      → (o : Lease) × (leases (c.leases.status_update l w).1 k ≡ some o) × (o.status ≡ l.status)
  update_same k l w held =
      let sent = c.leases.status_update l w in
      elim (Result-cases sent.0) [
        | inl (x, refused) ↦
            (l, serves.update_refused l w sent.1 (ap (λ r. (r, sent.1)) refused) k ∙ held, refl)
        | inr (_, written) ↦
            update_stored c.leases leases serves k l w sent.1 (serves.key_stored k w held)
              (ap (λ r. (r, sent.1)) written)
      ]

  -- While a lease is held and its term runs, a `Reconcile` that reads the lease and its requests
  -- leaves the lease stored with the same status, whatever requests there are, also if the holder's
  -- is gone, and whatever becomes of its update, if listing the requests leaves the leases alone.
  pub reconcile_held :
      ((namespace : String) (labels : List (String × String)) (w : W) (k : ObjectKey)
        → leases (c.lease_requests.list namespace labels w).1 k ≡ leases w k)
      → (req : ObjectKey) (lease : Lease) (requests : List LeaseRequest) (w w1 w2 : W)
      → c.leases.get req w ≡ (ok lease, w1)
      → IsHeld (c.clock w1) lease.status
      → c.lease_requests.list req.namespace (("lease", lease.meta.name) ∷ []) w1 ≡ (ok requests, w2)
      → (o : Lease) × (leases (reconcile c req w).1 req ≡ some o) × (o.status ≡ lease.status)
  unfolding reconcile
  reconcile_held aside req lease requests w w1 w2 got held listed =
      let stored_then : reconcile c req w ≡ store c lease w2 =
        ground (arith, refresh_held (c.clock w1) lease.status) in
      let there : leases w2 req ≡ some lease =
        ap (λ p. leases p.1 req) (sym listed)
        ∙ aside req.namespace (("lease", lease.meta.name) ∷ []) w1 req
        ∙ read_stored c.leases leases serves req lease w w1 got in
      let (o, now, same) = update_same req lease w2 there in
      (
        o,
        ap (λ p. leases p.1 req) stored_then
            ∙ ap (λ x. leases x req) (store_updates c lease w2)
            ∙ now,
        same,
      )

-- A lease whose term is over goes, in one `Reconcile`, to the holder of the best request.
pub reconcile_expired :
    {W : Type 0} (c : Client W) (req : ObjectKey) (lease : Lease) (requests : List LeaseRequest)
    (best : LeaseRequest) (w w1 w2 w3 w4 : W)
    → c.leases.get req w ≡ (ok lease, w1)
    → is_expired lease.status.expires_at (c.clock w1) ≡ true
    → c.lease_requests.list req.namespace (("lease", lease.meta.name) ∷ []) w1 ≡ (ok requests, w2)
    → best_request requests ≡ some best
    → c.lease_requests.status_update (grant best) w2 ≡ (ok tt, w3)
    → c.leases.status_update
        (record lease {
          status = record {
            holder = best.spec.holder;
            phase = LeasePhase.held;
            acquired_at = some (c.clock w2);
            expires_at = expiry (c.clock w2) lease.spec.ttl none;
            renew_count = pos 0;
          };
        })
        w3
      ≡ (ok tt, w4)
    → (reconcile c req w).1 ≡ w4
unfolding reconcile
reconcile_expired c req lease requests best w w1 w2 w3 w4 got over listed picked marked written =
    ground (arith, refresh_over (c.clock w1) lease.status)

-- The lease as `Reconcile` has it when it looks at the requests.
abbrev pub refreshed : Time → Lease → Lease
refreshed t l = record l { status = refresh t l.status }
