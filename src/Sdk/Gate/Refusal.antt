-- ===== src/Sdk/Gate/Refusal.antt =====
-- `Create` of sdk/go/gate/gate.go against the schema of the CRD (api/v1/gate_types.go).
use konductor.Prelude.{◌≡◌, inl, inr, String, Bool, arith}
use konductor.Api.Errors.{Error, Result-cases, err}
use konductor.Api.Gates.{GateStatus}
use konductor.Api.Schema.{gate_spec_valid}
use konductor.Client.Server.Validation.{Enforces}
use konductor.Sdk.Host.{Host}
use konductor.Sdk.Gate.{new_gate, create}

-- `Create` sends a gate with no conditions, and the schema asks for one at least: with a server that
-- enforces it, `Create` fails, for every name.
pub create_refused :
    {W : Type 0} (h : Host W) (status_valid : GateStatus → Bool) (name : String) (w : W)
    → Enforces h.client.gates gate_spec_valid status_valid
    → (e : Error) × ((create h name w).0 ≡ err e)
unfolding create
create_refused h status_valid name w enforces =
    elim (Result-cases (h.client.gates.create (new_gate h name) w).0) [
      | inl refused ↦ refused
      | inr (_, made) ↦
          let valid =
            enforces.create-valid (new_gate h name) w (h.client.gates.create (new_gate h name) w).1
              (ground arith) in
          absurd (cc)
    ]
