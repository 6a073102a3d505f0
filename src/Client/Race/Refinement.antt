-- ===== src/Client/Race/Refinement.antt =====
-- A race implements an abstract machine, if every plan does a move of it.
use konductor.Prelude.{◌≡◌, refl, sym, ◌∙◌, subst, true, Option, some, List, [], ◌∷◌}
use konductor.Api.Meta.{ObjectKey, Object}
use konductor.Client.Server.{Resource, Serves}
use konductor.Client.Race.{System, Reach, Inv}
use konductor.Client.Race.Serial.{log, Serial, begin, after, Reach-Serial}

-- A run of a machine, the last move first.
pub data Run {A L : Type 0} (moves : A → L → L → Type 0) (start : L) : List A → L → Type 0 where
  at_start : Run moves start [] start
  goes_on :
      {done : List A} {x y : L} {a : A}
      → Run moves start done x
      → moves a x y
      → Run moves start (a ∷ done) y

-- A machine whose moves depend on the spec of the object, and the state that a status stands for.
module _ {S T A L : Type 0} (plan : A → Object S T → Option (Object S T))
    (moves : S → A → L → L → Type 0) (view : T → L)
    (plan_moves : (a : A) (o m : Object S T)
      → plan a o ≡ some m
      → moves o.spec a (view o.status) (view m.status)) where
  Serial-Run :
      {o o' : Object S T} {done : List A}
      → Serial plan o done o'
      → Run (moves o.spec) (view o.status) done (view o'.status) × (o'.spec ≡ o.spec)
  Serial-Run begin = (at_start, refl)
  Serial-Run {o = o} (after {before = b} {m} {now} a l planned same kept) =
      let (run, specs) = Serial-Run l in
      (
        goes_on run (
            subst (λ spec. moves spec a (view b.status) (view now.status)) specs
              (subst (λ x. moves b.spec a (view b.status) (view x)) (sym same)
                (plan_moves a b m planned))),
        kept ∙ specs,
      )

  -- The stored object is that of a run of the machine, by the intents whose updates the server
  -- accepted.
  pub Reach-Run :
      {W : Type 0}
      → ((a : A) (m m' : Object S T) → plan a m ≡ some m' → m'.meta ≡ m.meta)
      → (r : Resource W S T) (stored : W → ObjectKey → Option (Object S T)) (k : ObjectKey)
      → Serves r stored
      → {s : System W S T} {o : Object S T} {t : System W S T} → Inv stored k s o
      → (past : Reach plan r k (λ _. true) s t)
      → (o' : Object S T) × (stored t.world k ≡ some o')
        × Run (moves o.spec) (view o.status) (log past) (view o'.status)
  Reach-Run keeps_meta r stored k serves v past =
      let (o', v', l) = Reach-Serial plan keeps_meta r stored k serves (λ _. true) v past in
      (o', v'.held, (Serial-Run l).0)
