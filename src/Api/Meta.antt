-- ===== src/Api/Meta.antt =====
-- The metadata of an object, and the shape that all kinds of api/v1 share: `metadata`, `spec` and
-- `status`. Times and durations are signed numbers of nanoseconds, as in Go's `time`; that the
-- server stores times in whole seconds, and that int64 can overflow, is left out.
use konductor.Prelude.{ℕ, ℤ, ◌+ℤ◌, ◌-ℤ◌, ltb_ℤ, Bool, String, List, str_eq, ◌&&◌}

abbrev pub Time : Type 0
Time = ℤ

abbrev pub Duration : Type 0
Duration = ℤ

-- `t.Add(d)`, `t.Sub(u)`, `t.Before(u)` and `t.After(u)`.
unfoldable pub add : Time → Duration → Time
add t d = t +ℤ d

unfoldable pub sub : Time → Time → Duration
sub t u = t -ℤ u

unfoldable pub before : Time → Time → Bool
before t u = ltb_ℤ t u

unfoldable pub after : Time → Time → Bool
after t u = ltb_ℤ u t

abbrev pub millisecond : ℕ
millisecond = 1_000_000

abbrev pub second : ℕ
second = 1_000_000_000

abbrev pub minute : ℕ
minute = 60_000_000_000

-- `types.NamespacedName`
pub record ObjectKey : Type 0 where
  pub namespace : String
  pub name : String

pub record OwnerReference : Type 0 where
  pub kind : String
  pub name : String
  pub uid : String

-- The fields of `metav1.ObjectMeta` that the code uses. The server sets `uid`,
-- `resource_version` and `creation_timestamp`.
pub record ObjectMeta : Type 0 where
  pub namespace : String
  pub name : String
  pub uid : String
  pub resource_version : ℕ
  pub creation_timestamp : Time
  pub labels : List (String × String)
  pub owners : List OwnerReference

pub record Object (S T : Type 0) : Type 0 where
  pub meta : ObjectMeta
  pub spec : S
  pub status : T

-- `client.ObjectKeyFromObject`
abbrev pub key_of : ObjectMeta → ObjectKey
key_of m = record { namespace = m.namespace; name = m.name }

abbrev pub same_key : ObjectKey → ObjectKey → Bool
same_key a b = str_eq a.namespace b.namespace && str_eq a.name b.name
