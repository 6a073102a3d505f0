-- ===== src/Sdk/Gate/Statuses.antt =====
-- What the map of `WaitForConditions` in sdk/go/gate/gate.go says of the statuses of a gate.
use konductor.Prelude.{
  ◌≡◌, refl, ap, inl, inr, true, false, String, str_eq, eq_iff, none, some, Option-cases, List, [],
  ◌∷◌, ◌++◌, All, arith,
}
use konductor.Api.Gates.{GateConditionStatus}
use konductor.Sdk.Gate.{condition_map, all_met}

-- The last status of a name among some says that its condition is met.
pub record LastIsMet (conditions : List GateConditionStatus) (name : String) : Type 0 where
  pub earlier : List GateConditionStatus
  pub last : GateConditionStatus
  pub later : List GateConditionStatus
  pub split : conditions ≡ earlier ++ (last ∷ later)
  pub its_name : last.name ≡ name
  pub is_so : last.met ≡ true
  pub others : All (λ c. str_eq c.name name ≡ false) later

-- A name that is not in the map is that of no status.
absent-All :
    (conditions : List GateConditionStatus) (name : String)
    → condition_map conditions name ≡ none
    → All (λ c. str_eq c.name name ≡ false) conditions
unfolding condition_map
absent-All [] name e = tt
absent-All (c ∷ cs) name e = elim (Option-cases (condition_map cs name)) [
  | inl absent ↦ (ground arith, absent-All cs name absent)
  | inr (b, found) ↦ absurd (ground arith)
]

mapped-LastIsMet :
    (conditions : List GateConditionStatus) (name : String)
    → condition_map conditions name ≡ some true
    → LastIsMet conditions name
unfolding condition_map
mapped-LastIsMet [] name e = absurd (cc)
mapped-LastIsMet (c ∷ cs) name e = elim (Option-cases (condition_map cs name)) [
  | inl absent ↦ record {
    earlier = [];
    last = c;
    later = cs;
    split = refl;
    its_name = ground (arith, eq_iff c.name name);
    is_so = ground arith;
    others = absent-All cs name absent;
  }
  | inr (b, found) ↦
      let rest = mapped-LastIsMet cs name (ground arith) in
      record {
        earlier = c ∷ rest.earlier;
        last = rest.last;
        later = rest.later;
        split = ap (λ x. c ∷ x) rest.split;
        its_name = rest.its_name;
        is_so = rest.is_so;
        others = rest.others;
      }
]

pub all_met-All :
    (conditions : List GateConditionStatus) (names : List String)
    → all_met conditions names ≡ true
    → All (LastIsMet conditions) names
unfolding all_met
all_met-All conditions [] e = tt
all_met-All conditions (name ∷ names) e =
    (mapped-LastIsMet conditions name (ground arith), all_met-All conditions names (ground arith))
