-- ===== src/Client/Server/Collection.antt =====
-- What the API server documents of creating and listing the objects of one kind, and that a list
-- with different objects in it is as long as there are such.
use konductor.Prelude.{
  ◌≡◌, suc, ◌≤◌, Bool, true, false, ◌&&◌, String, str_eq, eq_iff, Option, none, some, List, [], ◌∷◌,
  length, any, All, if◌then◌else◌, arith,
}
use konductor.Api.Meta.{ObjectKey, Object, key_of, same_key}
use konductor.Api.Errors.{ok}
use konductor.Client.Server.{Resource}

-- `client.MatchingLabels`: every label that is asked for is there.
abbrev pub has_labels : List (String × String) → List (String × String) → Bool
has_labels [] labels = true
has_labels ((name, value) ∷ wanted) labels =
    any (λ l. str_eq l.0 name && str_eq l.1 value) labels && has_labels wanted labels

abbrev pub is_listed : {S T : Type 0} → ObjectKey → List (Object S T) → Bool
is_listed k = any (λ o. same_key k (key_of o.meta))

-- What a creation that succeeds has done. The server sets the rest of the metadata.
pub record Created {S T : Type 0} (sent : Object S T) (old new : Option (Object S T)) : Type 0 where
  pub now : Object S T
  pub was_free : old ≡ none
  pub is_now : new ≡ some now
  pub same_labels : now.meta.labels ≡ sent.meta.labels
  pub same_spec : now.spec ≡ sent.spec

pub record Collects {W S T : Type 0} (r : Resource W S T)
    (stored : W → ObjectKey → Option (Object S T)) : Type 0 where
  pub create-ok :
      (o : Object S T) (w w' : W)
      → r.create o w ≡ (ok tt, w')
      → Created o (stored w (key_of o.meta)) (stored w' (key_of o.meta))
  pub create_elsewhere :
      (o : Object S T) (w w' : W) (k : ObjectKey)
      → r.create o w ≡ (ok tt, w')
      → same_key k (key_of o.meta) ≡ false
      → stored w' k ≡ stored w k
  pub list_complete :
      (namespace : String) (labels : List (String × String)) (w w' : W) {os : List (Object S T)}
      (k : ObjectKey) (o : Object S T)
      → r.list namespace labels w ≡ (ok os, w')
      → stored w k ≡ some o
      → k.namespace ≡ namespace
      → has_labels labels o.meta.labels ≡ true
      → is_listed k os ≡ true
  pub list_stored :
      (namespace : String) (labels : List (String × String)) (w w' : W) {os : List (Object S T)}
      → r.list namespace labels w ≡ (ok os, w')
      → All (λ o. stored w' (key_of o.meta) ≡ some o) os
  pub list_keeps :
      (namespace : String) (labels : List (String × String)) (w : W) (k : ObjectKey)
      → stored (r.list namespace labels w).1 k ≡ stored w k

pub same_key-eq : (a b : ObjectKey) → same_key a b ≡ true → a ≡ b
same_key-eq a b h = ground (arith, eq_iff a.namespace b.namespace, eq_iff a.name b.name)

abbrev pub AllDistinct : List ObjectKey → Type 0
AllDistinct [] = Unit
AllDistinct (k ∷ ks) = All (λ j. same_key j k ≡ false) ks × AllDistinct ks

module _ {S T : Type 0} where
  remove : ObjectKey → List (Object S T) → List (Object S T)
  remove k [] = []
  remove k (o ∷ os) = if same_key k (key_of o.meta) then os else o ∷ remove k os

  length-remove :
      (k : ObjectKey) (os : List (Object S T))
      → is_listed k os ≡ true
      → suc (length (remove k os)) ≡ length os
  unfolding remove
  length-remove k [] e = absurd (cc)
  length-remove k (o ∷ os) e = ground (arith, length-remove k os)

  is_listed-remove :
      (j k : ObjectKey) (os : List (Object S T))
      → same_key j k ≡ false
      → is_listed j os ≡ true
      → is_listed j (remove k os) ≡ true
  unfolding remove
  is_listed-remove j k [] other e = absurd (cc)
  is_listed-remove j k (o ∷ os) other e = ground (
    arith,
    is_listed-remove j k os other,
    same_key-eq j (key_of o.meta),
    same_key-eq k (key_of o.meta),
    eq_iff j.namespace k.namespace,
    eq_iff j.name k.name,
  )

  all_listed-remove :
      (k : ObjectKey) (ks : List ObjectKey) (os : List (Object S T))
      → All (λ j. same_key j k ≡ false) ks
      → All (λ j. is_listed j os ≡ true) ks
      → All (λ j. is_listed j (remove k os) ≡ true) ks
  all_listed-remove k [] os others e = tt
  all_listed-remove k (j ∷ ks) os others e =
      (is_listed-remove j k os others.0 e.0, all_listed-remove k ks os others.1 e.1)

  -- A list with an object under each of some different keys has as many objects at least.
  pub listed-length :
      (ks : List ObjectKey) (os : List (Object S T))
      → AllDistinct ks
      → All (λ k. is_listed k os ≡ true) ks
      → length ks ≤ length os
  listed-length [] os d e = omega arith
  listed-length (k ∷ ks) os d e = omega (
    arith,
    length-remove k os e.0,
    listed-length ks (remove k os) d.1 (all_listed-remove k ks os d.0 e.1),
  )
