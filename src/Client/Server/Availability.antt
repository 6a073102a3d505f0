-- ===== src/Client/Server/Availability.antt =====
-- A server that answers: it finds what is stored, and accepts a status update of the version that is
-- stored. Between the calls nothing else happens.
use konductor.Prelude.{◌≡◌, sym, ap, ◌∙◌, Option, some}
use konductor.Api.Meta.{ObjectKey, Object, key_of}
use konductor.Api.Errors.{ok}
use konductor.Client.Server.{Resource, Serves, update_stored}

pub record Answers {W S T : Type 0} (r : Resource W S T)
    (stored : W → ObjectKey → Option (Object S T)) : Type 0 where
  pub finds : (k : ObjectKey) (w : W) (o : Object S T) → stored w k ≡ some o → r.get k w ≡ (ok o, w)
  pub accepts :
      (sent : Object S T) (w : W) (o : Object S T)
      → stored w (key_of sent.meta) ≡ some o
      → o.meta.resource_version ≡ sent.meta.resource_version
      → (r.status_update sent w).0 ≡ ok tt

-- A status update of the object that is stored, as it was read, succeeds and stores the status.
pub update_answered :
    {W S T : Type 0} (r : Resource W S T) (stored : W → ObjectKey → Option (Object S T))
    → Serves r stored
    → Answers r stored
    → (k : ObjectKey) (o sent : Object S T) (w : W) → stored w k ≡ some o
    → sent.meta ≡ o.meta
    → (w' : W) × (r.status_update sent w ≡ (ok tt, w'))
      × ((o' : Object S T) × (stored w' k ≡ some o') × (o'.status ≡ sent.status))
update_answered r stored serves answers k o sent w held same =
    let at : key_of sent.meta ≡ k = ap key_of same ∙ serves.key_stored k w held in
    let w' = (r.status_update sent w).1 in
    let done : r.status_update sent w ≡ (ok tt, w') =
      ap (λ x. (x, w'))
        (answers.accepts sent w o (ap (stored w) at ∙ held)
          (ap (λ x. x.resource_version) (sym same))) in
    (w', done, update_stored r stored serves k sent w w' at done)
