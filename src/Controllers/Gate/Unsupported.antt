-- ===== src/Controllers/Gate/Unsupported.antt =====
-- The conditions that the schema of a gate allows and controllers/gate_controller.go does not know.
use konductor.Prelude.{
  ◌≡◌, refl, subst, inl, inr, Bool-cases, Bool, true, false, ◌||◌, String, str_eq, eq_iff, List, [],
  ◌∷◌, if◌then◌else◌, arith,
}
use konductor.Api.Schema.{is_one_of}
use konductor.Api.Gates.{Gate, GateCondition, GatePhase}
use konductor.Client.{Client}
use konductor.Controllers.Gate.{check_condition, check_conditions, conclude, settle, store}
use konductor.Controllers.Gate.Conditions.{timed_out}

-- The types that the schema allows beyond those of the controller's `switch`.
abbrev unsupported_types : List String
unsupported_types = "Gate" ∷ ("Mutex" ∷ ("Once" ∷ ("WaitGroup" ∷ [])))

abbrev pub is_unsupported : GateCondition → Bool
unfolding unsupported_types
is_unsupported k = is_one_of unsupported_types k.type

abbrev pub has_unsupported : List GateCondition → Bool
has_unsupported [] = false
has_unsupported (k ∷ ks) = is_unsupported k || has_unsupported ks

is_other_type :
    (type known : String)
    → is_one_of unsupported_types type ≡ true
    → is_one_of unsupported_types known ≡ false
    → str_eq type known ≡ false
is_other_type type known e f = elim (Bool-cases (str_eq type known)) [
  | inr other ↦ other
  | inl same ↦
      let it : type ≡ known = (eq_iff type known).0 same in
      let both = subst (λ t. is_one_of unsupported_types t ≡ true) it e in absurd (cc)
]

module _ {W : Type 0} (c : Client W) (g : Gate) where
  unsupported_unmet :
      (k : GateCondition) (w : W) → is_unsupported k ≡ true → (check_condition c g k w).0.1 ≡ false
  unfolding check_condition
  unsupported_unmet k w e =
      rw
        (
          is_other_type k.type "Job" e refl,
          is_other_type k.type "Semaphore" e refl,
          is_other_type k.type "Barrier" e refl,
          is_other_type k.type "Lease" e refl,
        )
        refl

  -- `allMet` stays false once it is.
  stays_unmet : (ks : List GateCondition) (w : W) → (check_conditions c g ks false w).0.1 ≡ false
  unfolding check_conditions
  stays_unmet [] w = refl
  stays_unmet (k ∷ ks) w =
      let v = check_condition c g k w in
      elim (Bool-cases v.0.1) [
        | inl met ↦ rw met (stays_unmet ks v.1)
        | inr unmet ↦ rw unmet (stays_unmet ks v.1)
      ]

  never_all_met :
      (ks : List GateCondition) (all_met : Bool) (w : W)
      → has_unsupported ks ≡ true
      → (check_conditions c g ks all_met w).0.1 ≡ false
  unfolding check_conditions
  never_all_met [] all_met w e = absurd (cc)
  never_all_met (k ∷ ks) all_met w e =
      let v = check_condition c g k w in
      elim (Bool-cases (is_unsupported k)) [
        | inl this ↦ rw (unsupported_unmet k w this) (stays_unmet ks v.1)
        | inr other ↦ never_all_met ks (if v.0.1 then all_met else false) v.1 (ground arith)
      ]

-- A Reconcile stores a gate with a condition on a gate, a mutex, a once or a wait group, which the
-- schema allows, as waiting, or as failed when its timeout is over: never as open.
pub unsupported_never_opens :
    {W : Type 0} (c : Client W) (g : Gate) (w : W)
    → has_unsupported g.spec.conditions ≡ true
    → (after : Gate) × (w' : W) × (settle c g w ≡ store c after w')
      × (after.status.phase
          ≡ (if timed_out (c.clock w') g then GatePhase.failed else GatePhase.waiting))
unfolding settle conclude
unsupported_never_opens c g w e =
    let checked = check_conditions c g g.spec.conditions true w in
    let unmet = never_all_met c g g.spec.conditions true w e in
    (conclude (c.clock checked.1) g checked.0.0 checked.0.1, checked.1, refl, rw unmet refl)
