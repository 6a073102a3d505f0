-- ===== src/Sdk/Options.antt =====
-- `Options` and the `With…` functions of sdk/go/client/client.go.
use konductor.Prelude.{ℤ, pos, String, List, [], ◌∷◌}
use konductor.Api.Meta.{Duration}

pub record Options : Type 0 where
  pub ttl : Duration
  pub timeout : Duration
  pub priority : ℤ
  pub holder : String
  pub quorum : ℤ

-- An option sets a field.
abbrev pub Setter : Type 0
Setter = Options → Options

abbrev pub no_options : Options
no_options = record { ttl = pos 0; timeout = pos 0; priority = pos 0; holder = ""; quorum = pos 0 }

pub with_ttl : Duration → Setter
with_ttl d o = record o { ttl = d }

unfoldable pub with_timeout : Duration → Setter
with_timeout d o = record o { timeout = d }

pub with_priority : ℤ → Setter
with_priority p o = record o { priority = p }

unfoldable pub with_holder : String → Setter
with_holder s o = record o { holder = s }

pub with_quorum : ℤ → Setter
with_quorum q o = record o { quorum = q }

-- The loop over the options of a call: a later one wins.
unfoldable pub apply : List Setter → Options → Options
apply [] o = o
apply (set ∷ sets) o = apply sets (set o)
