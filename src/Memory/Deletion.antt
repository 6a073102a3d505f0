-- ===== src/Memory/Deletion.antt =====
-- A deletion in the server in memory leaves the objects under other keys.
use konductor.Prelude.{◌≡◌, ◌≢◌, refl, sym, ap, ◌∙◌, inl, inr, Bool-cases, none, some}
use konductor.Api.Meta.{ObjectKey, key_of, same_key}
use konductor.Client.Server.Collection.{same_key-eq}
use konductor.Memory.{Cell, Lens, find, remove_cell, resource, stored}

module _ {W S T : Type 0} (l : Lens W S T) where
  find_removed : (c : Cell S T) (k j : ObjectKey) → k ≢ j → find (remove_cell k c).1 j ≡ find c j
  unfolding find
  find_removed none k j other = refl
  find_removed (some o) k j other = elim (Bool-cases (same_key k (key_of o.meta))) [
    | inr miss ↦ rw miss refl
    | inl hit ↦ elim (Bool-cases (same_key j (key_of o.meta))) [
      | inl too ↦
          absurd
            (other (same_key-eq k (key_of o.meta) hit ∙ sym (same_key-eq j (key_of o.meta) too)))
      | inr miss ↦ rw (hit, miss) refl
    ]
  ]

  pub memory-DeletesOne :
      (k j : ObjectKey) (w : W) → k ≢ j → stored l ((resource l).delete k w).1 j ≡ stored l w j
  memory-DeletesOne k j w other =
      ap (λ c. find c j) (l.view_put (remove_cell k (l.view w)).1 w)
      ∙ find_removed (l.view w) k j other
