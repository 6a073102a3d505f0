-- ===== src/Client/Server.antt =====
-- The handle of one kind of objects, and what the API server documents of it.
pub mod Availability
pub mod Collection
pub mod Validation
use konductor.Prelude.{
  ℕ, ◌<◌, ◌≡◌, refl, sym, ap, ◌∙◌, subst, String, List, Option, some, false, Action,
}
use konductor.Api.Meta.{ObjectKey, Object, key_of, same_key}
use konductor.Api.Errors.{Error, Result, ok, err}

-- `List` takes a namespace and the labels to match.
pub record Resource (W S T : Type 0) : Type 0 where
  pub get : ObjectKey → Action W (Result (Object S T))
  pub list : String → List (String × String) → Action W (Result (List (Object S T)))
  pub create : Object S T → Action W (Result (Unit {0}))
  pub update : Object S T → Action W (Result (Unit {0}))
  pub delete : ObjectKey → Action W (Result (Unit {0}))
  pub status_update : Object S T → Action W (Result (Unit {0}))

-- What a status update that succeeds has done: it replaced the status of an object that had the
-- resource version of the one sent, left its spec alone, and gave it a later version.
pub record Replaced {S T : Type 0} (sent : Object S T) (old new : Option (Object S T))
    : Type 0 where
  pub before : Object S T
  pub version : ℕ
  pub was : old ≡ some before
  pub same_version : before.meta.resource_version ≡ sent.meta.resource_version
  pub later : before.meta.resource_version < version
  pub is_now :
      new
      ≡ some (record {
        meta = record before.meta { resource_version = version };
        spec = before.spec;
        status = sent.status;
      })

-- Optimistic concurrency, as the API server documents it, of calls that are atomic. `stored` is
-- what the server holds under a key.
pub record Serves {W S T : Type 0} (r : Resource W S T)
    (stored : W → ObjectKey → Option (Object S T)) : Type 0 where
  pub get-ok :
      (k : ObjectKey) (w w' : W) {o : Object S T} → r.get k w ≡ (ok o, w') → stored w k ≡ some o
  pub get_keeps : (k : ObjectKey) (w : W) (j : ObjectKey) → stored (r.get k w).1 j ≡ stored w j
  pub key_stored :
      (k : ObjectKey) (w : W) {o : Object S T} → stored w k ≡ some o → key_of o.meta ≡ k
  pub update-ok :
      (o : Object S T) (w w' : W)
      → r.status_update o w ≡ (ok tt, w')
      → Replaced o (stored w (key_of o.meta)) (stored w' (key_of o.meta))
  pub update_refused :
      (o : Object S T) (w w' : W) {e : Error}
      → r.status_update o w ≡ (err e, w')
      → (k : ObjectKey) → stored w' k ≡ stored w k
  pub update_elsewhere :
      (o : Object S T) (w : W) (k : ObjectKey)
      → same_key k (key_of o.meta) ≡ false
      → stored (r.status_update o w).1 k ≡ stored w k

-- An update that succeeds stores the status that was sent.
pub update_stored :
    {W S T : Type 0} (r : Resource W S T) (stored : W → ObjectKey → Option (Object S T))
    → Serves r stored
    → (k : ObjectKey) (sent : Object S T) (w w' : W) → key_of sent.meta ≡ k
    → r.status_update sent w ≡ (ok tt, w')
    → (o : Object S T) × (stored w' k ≡ some o) × (o.status ≡ sent.status)
update_stored {S = S} {T} r stored serves k sent w w' at e =
    let made = serves.update-ok sent w w' e in
    subst (λ x. (o : Object S T) × (stored w' x ≡ some o) × (o.status ≡ sent.status)) at
      (_, made.is_now, refl)

-- A read leaves the object that it read in its place.
pub read_stored :
    {W S T : Type 0} (r : Resource W S T) (stored : W → ObjectKey → Option (Object S T))
    → Serves r stored
    → (k : ObjectKey) (o : Object S T) (w w' : W) → r.get k w ≡ (ok o, w')
    → stored w' k ≡ some o
read_stored r stored serves k o w w' e =
    ap (λ p. stored p.1 k) (sym e) ∙ serves.get_keeps k w k ∙ serves.get-ok k w w' e
