-- ===== src/Sdk/Gate/Closing.antt =====
-- `Close` of sdk/go/gate/gate.go and the reconciler of controllers/gate_controller.go together.
use konductor.Prelude.{
  ◌≡◌, sym, ◌∙◌, ap, inl, inr, true, String, Option, none, some, eq_of_some, arith,
}
use konductor.Api.Meta.{ObjectKey, key_of}
use konductor.Api.Errors.{Result-cases, ok}
use konductor.Api.Gates.{Gate, GatePhase}
use konductor.Client.Server.{Serves, update_stored}
use konductor.Controllers.Outcome.{Reconciled}
use konductor.Controllers.Gate.{check_conditions, reconcile}
use konductor.Controllers.Gate.Reopening.{reconcile_opens}
use konductor.Sdk.Host.{Host, key}
use konductor.Sdk.Gate.{set_phase, write_phase}

module _ {W : Type 0} (h : Host W) (gates : W → ObjectKey → Option Gate)
    (serves : Serves h.client.gates gates) where
  -- A write of a phase that succeeds has read the gate and sent it in that phase.
  written :
      (p : GatePhase) (name : String) (w w' : W)
      → write_phase h p name w ≡ (ok tt, w')
      → (g : Gate) × (u : W) × (h.client.gates.get (key h name) w ≡ (ok g, u))
        × (h.client.gates.status_update (set_phase p g) u ≡ (ok tt, w'))
  unfolding write_phase
  written p name w w' e =
      let found = h.client.gates.get (key h name) w in
      elim (Result-cases found.0) [
        | inl (x, missing) ↦ absurd (ground arith)
        | inr (g, read) ↦ (g, found.1, ground arith, ground arith)
      ]

  -- The write of `Close` stores a gate as waiting, but the next Reconcile that reads it, finds all
  -- of its conditions met and ends with no error, stores it as open again.
  pub close_undone :
      (name : String) (w w1 v w2 : W) (g : Gate) (out : Reconciled)
      → write_phase h GatePhase.waiting name w ≡ (ok tt, w1)
      → h.client.gates.get (key h name) w1 ≡ (ok g, v)
      → (check_conditions h.client g g.spec.conditions true v).0.1 ≡ true
      → reconcile h.client (key h name) w1 ≡ (out, w2)
      → out.error ≡ none
      → (g.status.phase ≡ GatePhase.waiting)
        × ((g' : Gate) × (gates w2 (key h name) ≡ some g') × (g'.status.phase ≡ GatePhase.opened))
  close_undone name w w1 v w2 g out closed found met e fine =
      let k = key h name in
      let (before, u, read, sent) = written GatePhase.waiting name w w1 closed in
      let (after, there, same) =
        update_stored h.client.gates gates serves k (set_phase GatePhase.waiting before) u w1
          (serves.key_stored k w (serves.get-ok k w u read)) sent in
      let here = serves.get-ok k w1 v found in
      let it : after ≡ g = eq_of_some (sym there ∙ here) in
      let (opened, x, stored, meta, phase) =
        reconcile_opens h.client k g w1 v w2 out found met e fine in
      let (g', there', same') =
        update_stored h.client.gates gates serves k opened x w2
          (ap key_of meta ∙ serves.key_stored k w1 here) stored in
      (
        ap (λ y. y.status.phase) (sym it) ∙ ap (λ s. s.phase) same,
        (g', there', ap (λ s. s.phase) same' ∙ phase),
      )
