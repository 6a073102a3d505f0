-- ===== src/Controllers/Lease/Selection.antt =====
-- Which request the loop of controllers/lease_controller.go picks.
use konductor.Prelude.{
  ◌≡◌, refl, ap, ◌∙◌, lt_of_ltb, le_of_not_ltb, inl, inr, Bool-cases, ltb_ℤ, ◌≤ℤ◌, ◌<ℤ◌, true,
  false, some, List, [], ◌∷◌, ◌++◌, All, arith,
}
use konductor.Api.Leases.{LeaseRequest}
use konductor.Controllers.Lease.{select, best_request, priority_of}

-- `r` stands in the list behind requests of less priority only, and before none of more.
pub record IsFirstBest (rs : List LeaseRequest) (r : LeaseRequest) : Type 0 where
  pub earlier : List LeaseRequest
  pub later : List LeaseRequest
  pub splits : rs ≡ earlier ++ (r ∷ later)
  pub above : All (λ q. priority_of q <ℤ priority_of r) earlier
  pub not_below : All (λ q. priority_of q ≤ℤ priority_of r) later

-- What the loop gives from a first candidate `b`: that one, or the first best of the rest.
data Picks (b : LeaseRequest) (rs : List LeaseRequest) : Type 0 where
  stays :
      select (some b) (priority_of b) rs ≡ some b
      → All (λ q. priority_of q ≤ℤ priority_of b) rs
      → Picks b rs
  moves :
      (r : LeaseRequest)
      → select (some b) (priority_of b) rs ≡ some r
      → priority_of b <ℤ priority_of r
      → IsFirstBest rs r
      → Picks b rs

step_stay :
    (b x : LeaseRequest) (rs : List LeaseRequest)
    → ltb_ℤ (priority_of b) (priority_of x) ≡ false
    → select (some b) (priority_of b) (x ∷ rs) ≡ select (some b) (priority_of b) rs
unfolding select
step_stay b x rs h = rw h

step_move :
    (b x : LeaseRequest) (rs : List LeaseRequest)
    → ltb_ℤ (priority_of b) (priority_of x) ≡ true
    → select (some b) (priority_of b) (x ∷ rs) ≡ select (some x) (priority_of x) rs
unfolding select
step_move b x rs h = rw h

skip :
    (x r : LeaseRequest) (rs : List LeaseRequest)
    → priority_of x <ℤ priority_of r
    → IsFirstBest rs r
    → IsFirstBest (x ∷ rs) r
skip x r rs h f = record {
  earlier = x ∷ f.earlier;
  later = f.later;
  splits = ap (◌∷◌ x) f.splits;
  above = (h, f.above);
  not_below = f.not_below;
}

Picks-up :
    (b x : LeaseRequest) (rs : List LeaseRequest)
    → ltb_ℤ (priority_of b) (priority_of x) ≡ true
    → Picks x rs
    → Picks b (x ∷ rs)
Picks-up b x rs up (stays e low) =
    moves x (step_move b x rs up ∙ e) (lt_of_ltb (priority_of b) (priority_of x) up)
      (record { earlier = []; later = rs; splits = refl; above = tt; not_below = low })
Picks-up b x rs up (moves r e more f) =
    moves r (step_move b x rs up ∙ e) (omega (arith, lt_of_ltb (priority_of b) (priority_of x) up))
      (skip x r rs more f)

Picks-down :
    (b x : LeaseRequest) (rs : List LeaseRequest)
    → ltb_ℤ (priority_of b) (priority_of x) ≡ false
    → Picks b rs
    → Picks b (x ∷ rs)
Picks-down b x rs down (stays e low) =
    stays (step_stay b x rs down ∙ e) (le_of_not_ltb (priority_of b) (priority_of x) down, low)
Picks-down b x rs down (moves r e more f) =
    moves r (step_stay b x rs down ∙ e) more
      (skip x r rs (omega (arith, le_of_not_ltb (priority_of b) (priority_of x) down)) f)

picks : (b : LeaseRequest) (rs : List LeaseRequest) → Picks b rs
unfolding select
picks b [] = stays refl tt
picks b (x ∷ rs) = elim (Bool-cases (ltb_ℤ (priority_of b) (priority_of x))) [
  | inl up ↦ Picks-up b x rs up (picks x rs)
  | inr down ↦ Picks-down b x rs down (picks b rs)
]

first_of_Picks :
    (r : LeaseRequest) (rs : List LeaseRequest)
    → Picks r rs
    → (b : LeaseRequest) × (best_request (r ∷ rs) ≡ some b) × IsFirstBest (r ∷ rs) b
unfolding select
first_of_Picks r rs (stays e low) =
    (r, e, record { earlier = []; later = rs; splits = refl; above = tt; not_below = low })
first_of_Picks r rs (moves b e more f) = (b, e, skip r b rs more f)

-- On a list that is not empty the loop picks a request of the highest priority, and the first of
-- those.
pub best_request-IsFirstBest :
    (r : LeaseRequest) (rs : List LeaseRequest)
    → (b : LeaseRequest) × (best_request (r ∷ rs) ≡ some b) × IsFirstBest (r ∷ rs) b
best_request-IsFirstBest r rs = first_of_Picks r rs (picks r rs)
