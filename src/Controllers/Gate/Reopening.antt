-- ===== src/Controllers/Gate/Reopening.antt =====
-- A `Reconcile` of controllers/gate_controller.go that finds every condition met.
use konductor.Prelude.{◌≡◌, refl, ap, inl, inr, true, none, arith}
use konductor.Api.Meta.{ObjectKey}
use konductor.Api.Errors.{Result-cases, ok}
use konductor.Api.Gates.{Gate, GatePhase}
use konductor.Client.{Client}
use konductor.Controllers.Outcome.{Reconciled}
use konductor.Controllers.Gate.{
  check_conditions, conclude, store, requeue_waiting, settle, reconcile,
}

module _ {W : Type 0} (c : Client W) (g : Gate) where
  settle_met :
      (w : W)
      → let checked = check_conditions c g g.spec.conditions true w in
        checked.0.1 ≡ true
        → settle c g w ≡ store c (conclude (c.clock checked.1) g checked.0.0 true) checked.1
  unfolding settle
  settle_met w met =
      let checked = check_conditions c g g.spec.conditions true w in
      ap (λ b. store c (conclude (c.clock checked.1) g checked.0.0 b) checked.1) met

  store_written :
      (w w' : W) (out : Reconciled)
      → store c g w ≡ (out, w')
      → out.error ≡ none
      → c.gates.status_update g w ≡ (ok tt, w')
  unfolding store requeue_waiting
  store_written w w' out e fine = elim (Result-cases (c.gates.status_update g w).0) [
    | inl (x, refused) ↦ absurd (ground arith)
    | inr (_, written) ↦ ground arith
  ]

-- If it ends with no error, it has stored the gate as open.
pub reconcile_opens :
    {W : Type 0} (c : Client W) (k : ObjectKey) (g : Gate) (w v w' : W) (out : Reconciled)
    → c.gates.get k w ≡ (ok g, v)
    → (check_conditions c g g.spec.conditions true v).0.1 ≡ true
    → reconcile c k w ≡ (out, w')
    → out.error ≡ none
    → (sent : Gate) × (u : W) × (c.gates.status_update sent u ≡ (ok tt, w'))
      × (sent.meta ≡ g.meta)
      × (sent.status.phase ≡ GatePhase.opened)
unfolding reconcile conclude
reconcile_opens c k g w v w' out found met e fine =
    let checked = check_conditions c g g.spec.conditions true v in
    let sent = conclude (c.clock checked.1) g checked.0.0 true in
    let stores = settle_met c g v met in
    (sent, checked.1, store_written c sent checked.1 w' out (ground arith) fine, refl, refl)
