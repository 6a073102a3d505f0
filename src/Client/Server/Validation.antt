-- ===== src/Client/Server/Validation.antt =====
-- What the API server documents of the schema of a CRD: it creates no object whose spec breaks it,
-- and stores no status that does.
use konductor.Prelude.{◌≡◌, Bool, true}
use konductor.Api.Meta.{Object}
use konductor.Api.Errors.{ok}
use konductor.Client.Server.{Resource}

pub record Enforces {W S T : Type 0} (r : Resource W S T) (spec_valid : S → Bool)
    (status_valid : T → Bool) : Type 0 where
  pub create-valid :
      (o : Object S T) (w w' : W) → r.create o w ≡ (ok tt, w') → spec_valid o.spec ≡ true
  pub status_update-valid :
      (o : Object S T) (w w' : W) → r.status_update o w ≡ (ok tt, w') → status_valid o.status ≡ true
