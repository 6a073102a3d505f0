-- ===== src/Memory.antt =====
-- A server in memory for the tests and the witnesses: one object of each kind at most, with the
-- optimistic concurrency that the API server documents. It stands for no code of the repository.
pub mod Availability
pub mod Collection
pub mod Deletion
pub mod Validation
pub mod World
pub mod Host
use konductor.Prelude.{
  ◌≡◌, refl, sym, ap, ◌∙◌, subst, eq_of_some, ◌↔◌, ℕ, suc, ◌<◌, ◌==◌, Bool, true, false, Bool-cases,
  ◌&&◌, inl, inr, String, str_eq, eq_iff, Option, none, some, Option-cases, List, [], ◌∷◌, Action,
  return, if◌then◌else◌, arith,
}
use konductor.Api.Meta.{ObjectKey, ObjectMeta, Object, key_of, same_key}
use konductor.Api.Errors.{Error, Result, ok, err, not_found, conflict, already_exists}
use konductor.Client.Server.{Resource, Serves, Replaced}

abbrev pub Cell : Type 0 → Type 0 → Type 0
Cell S T = Option (Object S T)

-- How a world holds the objects of one kind.
pub record Lens (W S T : Type 0) : Type 0 where
  pub view : W → Cell S T
  pub put : Cell S T → W → W
  pub view_put : (c : Cell S T) (w : W) → view (put c w) ≡ c

same_key_sound : (a b : ObjectKey) → same_key a b ≡ true → b ≡ a
same_key_sound a b h = ground (arith, eq_iff a.namespace b.namespace, eq_iff a.name b.name)

module _ {S T : Type 0} where
  unfoldable pub find : Cell S T → ObjectKey → Cell S T
  find none k = none
  find (some o) k = if same_key k (key_of o.meta) then some o else none

  abbrev pub read_cell : Cell S T → Result (Object S T)
  read_cell none = err not_found
  read_cell (some o) = ok o

  abbrev pub overwrite : Object S T → Object S T → Object S T
  overwrite sent o = record o {
    meta = record o.meta { resource_version = suc o.meta.resource_version };
    status = sent.status;
  }

  unfoldable pub write : Object S T → Cell S T → Result (Unit {0}) × Cell S T
  write sent none = (err not_found, none)
  write sent (some o) =
      if same_key (key_of sent.meta) (key_of o.meta)
      then if o.meta.resource_version == sent.meta.resource_version
        then (ok tt, some (overwrite sent o))
        else (err conflict, some o)
      else (err not_found, some o)

  abbrev pub as_list : Cell S T → List (Object S T)
  as_list none = []
  as_list (some o) = o ∷ []

  abbrev pub add_cell : Object S T → Cell S T → Result (Unit {0}) × Cell S T
  add_cell sent none = (ok tt, some sent)
  add_cell sent (some o) = (err already_exists, some o)

  abbrev pub remove_cell : ObjectKey → Cell S T → Result (Unit {0}) × Cell S T
  remove_cell k none = (err not_found, none)
  remove_cell k (some o) =
      if same_key k (key_of o.meta) then (ok tt, none) else (err not_found, some o)

module _ {S T : Type 0} where
  find_key : (c : Cell S T) (k : ObjectKey) {o : Object S T} → find c k ≡ some o → key_of o.meta ≡ k
  unfolding find
  find_key none k e = cc
  find_key (some x) k {o} e = elim (Bool-cases (same_key k (key_of x.meta))) [
    | inl hit ↦
        let it : x ≡ o = eq_of_some (rw hit at e) in
        ap (λ z. key_of z.meta) (sym it) ∙ same_key_sound k (key_of x.meta) hit
    | inr miss ↦ cc (rw miss at e)
  ]

  write-ok :
      (sent : Object S T) (c : Cell S T)
      → (write sent c).0 ≡ ok tt
      → Replaced sent (find c (key_of sent.meta)) (find (write sent c).1 (key_of sent.meta))
  unfolding find write
  write-ok sent none e = cc
  write-ok sent (some o) e = elim (Bool-cases (same_key (key_of sent.meta) (key_of o.meta))) [
    | inl hit ↦ elim (Bool-cases (o.meta.resource_version == sent.meta.resource_version)) [
      | inl current ↦ record {
        before = o;
        version = suc o.meta.resource_version;
        was = rw hit;
        same_version = ground arith;
        later = omega arith;
        is_now = rw (hit, current) (rw hit);
      }
      | inr stale ↦ cc (rw (hit, stale) at e)
    ]
    | inr miss ↦ cc (rw miss at e)
  ]

  write_refused :
      (sent : Object S T) (c : Cell S T) {e : Error}
      → (write sent c).0 ≡ err e
      → (write sent c).1 ≡ c
  unfolding write
  write_refused sent none e = refl
  write_refused sent (some o) e = ground arith

  write_elsewhere :
      (sent : Object S T) (c : Cell S T) (k : ObjectKey)
      → same_key k (key_of sent.meta) ≡ false
      → find (write sent c).1 k ≡ find c k
  unfolding find write
  write_elsewhere sent none k h = refl
  write_elsewhere sent (some o) k h =
      ground (arith, same_key_sound (key_of sent.meta) (key_of o.meta))

  read_found : (c : Cell S T) {o : Object S T} → read_cell c ≡ ok o → c ≡ some o
  read_found none e = cc
  read_found (some x) e = cc

module _ {W S T : Type 0} (l : Lens W S T) where
  abbrev pub on_cell : (Cell S T → Result (Unit {0}) × Cell S T) → Action W (Result (Unit {0}))
  on_cell f w = ((f (l.view w)).0, l.put (f (l.view w)).1 w)

  abbrev pub resource : Resource W S T
  resource = record {
    get = λ k w. (read_cell (find (l.view w) k), w);
    list = λ namespace labels w. (ok (as_list (l.view w)), w);
    create = λ o. on_cell (add_cell o);
    update = λ o. on_cell (write o);
    delete = λ k. on_cell (remove_cell k);
    status_update = λ o. on_cell (write o);
  }

  abbrev pub stored : W → ObjectKey → Option (Object S T)
  stored w k = find (l.view w) k

  seen_put : (c : Cell S T) (w : W) (k : ObjectKey) → stored (l.put c w) k ≡ find c k
  seen_put c w k = ap (λ x. find x k) (l.view_put c w)

  -- The server in memory does what the API server documents.
  pub memory-Serves : Serves resource stored
  memory-Serves = record {
    get-ok = λ k w w' e. read_found (find (l.view w) k) (ap (λ x. x.0) e);
    get_keeps = λ k w j. refl;
    key_stored = λ k w e. find_key (l.view w) k e;
    update-ok = λ o w w' e.
        subst (λ v. Replaced o (stored w (key_of o.meta)) (stored v (key_of o.meta)))
          (ap (λ x. x.1) e)
          (subst (Replaced o (stored w (key_of o.meta)))
            (sym (seen_put (write o (l.view w)).1 w (key_of o.meta)))
            (write-ok o (l.view w) (ap (λ x. x.0) e)));
    update_refused = λ o w w' e k.
        ap (λ v. stored v k) (sym (ap (λ x. x.1) e))
        ∙ seen_put (write o (l.view w)).1 w k
        ∙ ap (λ c. find c k) (write_refused o (l.view w) (ap (λ x. x.0) e));
    update_elsewhere =
        λ o w k h. seen_put (write o (l.view w)).1 w k ∙ write_elsewhere o (l.view w) k h;
  }
