-- ===== src/Memory/Collection.antt =====
-- The server in memory creates and lists objects as the API server documents it.
use konductor.Prelude.{◌≡◌, refl, sym, ap, ◌∙◌, subst, true, false, eq_iff, none, some, All, arith}
use konductor.Api.Meta.{ObjectKey, Object, key_of, same_key}
use konductor.Api.Errors.{ok}
use konductor.Client.Server.Collection.{Collects, Created, is_listed}
use konductor.Memory.{Cell, Lens, find, add_cell, as_list, resource, stored}

ok_eq : {A : Type 0} {a b : A} → ok a ≡ ok b → a ≡ b
ok_eq e = cc

same_key_refl : (k : ObjectKey) → same_key k k ≡ true
same_key_refl k = ground (arith, eq_iff k.namespace k.namespace, eq_iff k.name k.name)

module _ {S T : Type 0} where
  add-Created :
      (o : Object S T) (c : Cell S T)
      → (add_cell o c).0 ≡ ok tt
      → Created o (find c (key_of o.meta)) (find (add_cell o c).1 (key_of o.meta))
  unfolding find
  add-Created o none e = record {
    now = o;
    was_free = refl;
    is_now = rw (same_key_refl (key_of o.meta)) refl;
    same_labels = refl;
    same_spec = refl;
  }
  add-Created o (some x) e = absurd (cc)

  add_elsewhere :
      (o : Object S T) (c : Cell S T) (k : ObjectKey)
      → (add_cell o c).0 ≡ ok tt
      → same_key k (key_of o.meta) ≡ false
      → find (add_cell o c).1 k ≡ find c k
  unfolding find
  add_elsewhere o none k e other = rw other refl
  add_elsewhere o (some x) k e other = absurd (cc)

  find-listed :
      (c : Cell S T) (k : ObjectKey) (o : Object S T)
      → find c k ≡ some o
      → is_listed k (as_list c) ≡ true
  unfolding find
  find-listed none k o e = absurd (cc)
  find-listed (some x) k o e = ground arith

  listed-found : (c : Cell S T) → All (λ o. find c (key_of o.meta) ≡ some o) (as_list c)
  unfolding find
  listed-found none = tt
  listed-found (some o) = (rw (same_key_refl (key_of o.meta)) refl, tt)

module _ {W S T : Type 0} (l : Lens W S T) where
  seen_put : (c : Cell S T) (w : W) (k : ObjectKey) → stored l (l.put c w) k ≡ find c k
  seen_put c w k = ap (λ x. find x k) (l.view_put c w)

  pub memory-Collects : Collects (resource l) (stored l)
  memory-Collects = record {
    create-ok = λ o w w' e.
        subst (λ v. Created o (stored l w (key_of o.meta)) (stored l v (key_of o.meta)))
          (ap (λ x. x.1) e)
          (subst (Created o (stored l w (key_of o.meta)))
            (sym (seen_put (add_cell o (l.view w)).1 w (key_of o.meta)))
            (add-Created o (l.view w) (ap (λ x. x.0) e)));
    create_elsewhere = λ o w w' k e other.
        ap (λ v. stored l v k) (sym (ap (λ x. x.1) e))
        ∙ seen_put (add_cell o (l.view w)).1 w k
        ∙ add_elsewhere o (l.view w) k (ap (λ x. x.0) e) other;
    list_complete = λ namespace labels w w' k o e there here labelled.
        subst (λ os. is_listed k os ≡ true) (ok_eq (ap (λ x. x.0) e))
          (find-listed (l.view w) k o there);
    list_stored = λ namespace labels w w' e.
        subst (All (λ o. stored l w' (key_of o.meta) ≡ some o)) (ok_eq (ap (λ x. x.0) e)) (
          subst (λ v. All (λ o. stored l v (key_of o.meta) ≡ some o) (as_list (l.view w)))
            (ap (λ x. x.1) e) (listed-found (l.view w)));
    list_keeps = λ namespace labels w k. refl;
  }
