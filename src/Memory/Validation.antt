-- ===== src/Memory/Validation.antt =====
-- The server in memory with schemas that it enforces.
use konductor.Prelude.{inl, inr, Bool, true, false, Bool-cases}
use konductor.Api.Errors.{server, err}
use konductor.Client.Server.{Resource}
use konductor.Client.Server.Validation.{Enforces}
use konductor.Memory.{Lens, resource}

module _ {W S T : Type 0} (l : Lens W S T) (spec_valid : S → Bool) (status_valid : T → Bool) where
  abbrev pub enforcing : Resource W S T
  enforcing = record (resource l) {
    create = λ o. elim (spec_valid o.spec) [
      | true ↦ (resource l).create o
      | false ↦ λ w. (err (server "invalid"), w)
    ];
    status_update = λ o. elim (status_valid o.status) [
      | true ↦ (resource l).status_update o
      | false ↦ λ w. (err (server "invalid"), w)
    ];
  }

  pub memory-Enforces : Enforces enforcing spec_valid status_valid
  memory-Enforces = record {
    create-valid = λ o w w' e. elim (Bool-cases (spec_valid o.spec)) [
      | inl valid ↦ valid
      | inr invalid ↦ absurd (cc (rw invalid at e))
    ];
    status_update-valid = λ o w w' e. elim (Bool-cases (status_valid o.status)) [
      | inl valid ↦ valid
      | inr invalid ↦ absurd (cc (rw invalid at e))
    ];
  }
