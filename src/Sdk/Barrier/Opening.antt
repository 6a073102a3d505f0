-- ===== src/Sdk/Barrier/Opening.antt =====
-- The calls of `Arrive` of sdk/go/barrier/barrier.go and the reconciler of
-- controllers/barrier_controller.go together: arrivals open a barrier.
use konductor.Prelude.{
  ◌≡◌, sym, ◌∙◌, subst, ap, ℕ, ◌<◌, ◌^◌, pos, ◌≤ℤ◌, int32_of_IsInt32, false, inl, inr, String,
  Option, none, some, List, [], ◌∷◌, length, arith,
}
use konductor.Api.Meta.{ObjectKey, key_of}
use konductor.Api.Errors.{ok}
use konductor.Api.Counters.{Barrier, BarrierPhase, Arrival}
use konductor.Client.Server.{Serves, update_stored, read_stored}
use konductor.Client.Server.Collection.{Collects}
use konductor.Controllers.Outcome.{Reconciled}
use konductor.Controllers.Barrier.{required_arrivals, is_timed_out, evaluate, settle, reconcile}
use konductor.Controllers.Barrier.Phases.{counted, evaluate_open, settle_open}
use konductor.Sdk.Host.{Host, key}
use konductor.Sdk.Barrier.Arrivals.{Arrivals, meanwhile, Arrivals-le-listed}

module _ {W : Type 0} (h : Host W) (name : String) (arrived : W → ObjectKey → Option Arrival)
    (collects : Collects h.client.arrivals arrived) (barriers : W → ObjectKey → Option Barrier)
    (serves : Serves h.client.barriers barriers)
    (get_apart : (k : ObjectKey) (w : W) (j : ObjectKey)
      → arrived (h.client.barriers.get k w).1 j ≡ arrived w j)
    (list_apart : (namespace : String) (labels : List (String × String)) (w : W) (j : ObjectKey)
      → barriers (h.client.arrivals.list namespace labels w).1 j ≡ barriers w j) where
  -- A barrier that the reconciler has read keeps its place while it lists the arrivals.
  listed_there :
      (v v1 v2 : W) (b : Barrier) (os : List Arrival)
      → h.client.barriers.get (key h name) v ≡ (ok b, v1)
      → h.client.arrivals.list h.namespace (("barrier", name) ∷ []) v1 ≡ (ok os, v2)
      → barriers v2 (key h name) ≡ some b
  listed_there v v1 v2 b os found listed_at =
      let k = key h name in
      ap (λ p. barriers p.1 k) (sym listed_at)
      ∙ list_apart h.namespace (("barrier", name) ∷ []) v1 k
      ∙ read_stored h.client.barriers barriers serves k b v v1 found

  settled_open :
      (v2 w : W) (b : Barrier) (os : List Arrival) (out : Reconciled)
      → barriers v2 (key h name) ≡ some b
      → is_timed_out (h.client.clock v2) b.meta b.spec.timeout ≡ false
      → required_arrivals b ≤ℤ counted os
      → settle h.client b os v2 ≡ (out, w)
      → out.error ≡ none
      → (b' : Barrier) × (barriers w (key h name) ≡ some b')
        × (b'.status.phase ≡ BarrierPhase.opened)
  settled_open v2 w b os out there early enough e fine =
      let (phase, meta, before) = evaluate_open (h.client.clock v2) os b early enough in
      let after = (evaluate (h.client.clock v2) os b).1 in
      elim (settle_open h.client b os v2 w out early enough e fine) [
        | inr (same, phase') ↦
            (b, subst (λ x. barriers x (key h name) ≡ some b) (sym same) there, phase')
        | inl written ↦
            let (b', stored, same) =
              update_stored h.client.barriers barriers serves (key h name) after v2 w
                (ap key_of meta ∙ serves.key_stored (key h name) v2 there) written in
            (b', stored, ap (λ st. st.phase) same ∙ phase)
      ]

  -- If a barrier asks for no more arrivals than there have been successful calls of `Arrive`, on any
  -- hosts and with anything in between that leaves the arrivals alone, then a Reconcile that reads
  -- it and fewer than 2 ^ 31 arrivals before the timeout, and ends with no error, leaves it stored
  -- as open.
  pub Arrivals-open :
      {start : W} (n : ℕ) (v v1 v2 w : W) (b : Barrier) (os : List Arrival) (out : Reconciled)
      → Arrivals h name arrived start n v
      → required_arrivals b ≤ℤ pos n
      → h.client.barriers.get (key h name) v ≡ (ok b, v1)
      → h.client.arrivals.list h.namespace (("barrier", name) ∷ []) v1 ≡ (ok os, v2)
      → length os < 2 ^ 31
      → is_timed_out (h.client.clock v2) b.meta b.spec.timeout ≡ false
      → reconcile h.client (key h name) v ≡ (out, w)
      → out.error ≡ none
      → (b' : Barrier) × (barriers w (key h name) ≡ some b')
        × (b'.status.phase ≡ BarrierPhase.opened)
  unfolding reconcile
  Arrivals-open n v v1 v2 w b os out past asked found listed_at small early e fine =
      let more =
        Arrivals-le-listed h name arrived collects get_apart v1 v2 n os
          (meanwhile past
            (λ k a there. ap (λ p. arrived p.1 k) (sym found) ∙ get_apart (key h name) v k ∙ there))
          listed_at in
      let there = listed_there v v1 v2 b os found listed_at in
      let named : b.meta.name ≡ name = ap (λ k. k.name) (serves.key_stored (key h name) v2 there) in
      settled_open v2 w b os out there early
        (rw (int32_of_IsInt32 (pos (length os)) (omega arith)) (omega arith)) (ground arith) fine
