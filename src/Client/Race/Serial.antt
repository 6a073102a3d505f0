-- ===== src/Client/Race/Serial.antt =====
-- A race comes to the same as doing, one after the other and each on what the one before has left,
-- what the server accepted.
use konductor.Prelude.{◌≡◌, ℕ, Bool, Option, some, List, [], ◌∷◌}
use konductor.Api.Meta.{ObjectKey, Object}
use konductor.Api.Errors.{Result, ok, err}
use konductor.Client.Server.{Resource, Serves}
use konductor.Client.Race.{System, read, send, Reach, here, next, Inv}
use konductor.Client.Race.Atomic.{read-Inv, refused-Inv, accepted-Inv}

abbrev noted : {A : Type 0} → Result (Unit {0}) → A → List A → List A
noted (ok _) a done = a ∷ done
noted (err e) a done = done

-- The intents whose updates the server accepted, the last one first.
module _ {W S T A : Type 0} {plan : A → Object S T → Option (Object S T)} {r : Resource W S T}
    {k : ObjectKey} {allowed : A → Bool} {s : System W S T} where
  unfoldable pub log : {t : System W S T} → Reach plan r k allowed s t → List A
  log here = []
  log (next past (read i e)) = log past
  log (next past (send i a {answer = answer} can saw planned e)) = noted answer a (log past)

-- What the intents, the last one first, make one after the other of the status of `o`.
pub data Serial {S T A : Type 0} (plan : A → Object S T → Option (Object S T)) (o : Object S T)
    : List A → Object S T → Type 0 where
  begin : Serial plan o [] o
  after :
      {done : List A} {before m now : Object S T} (a : A)
      → Serial plan o done before
      → plan a before ≡ some m
      → now.status ≡ m.status
      → now.spec ≡ before.spec
      → Serial plan o (a ∷ done) now

module _ {W S T A : Type 0} (plan : A → Object S T → Option (Object S T))
    (keeps_meta : (a : A) (m m' : Object S T) → plan a m ≡ some m' → m'.meta ≡ m.meta)
    (r : Resource W S T) (stored : W → ObjectKey → Option (Object S T)) (k : ObjectKey)
    (serves : Serves r stored) (allowed : A → Bool) where
  send-Serial :
      (s : System W S T) (o1 o2 : Object S T) (done : List A) (i : ℕ) (a : A) (m m' : Object S T)
      (w' : W) (answer : Result (Unit {0}))
      → Inv stored k s o2
      → Serial plan o1 done o2
      → s.seen i ≡ some m
      → plan a m ≡ some m'
      → r.status_update m' s.world ≡ (answer, w')
      → (o3 : Object S T) × Inv stored k (record { world = w'; seen = s.seen }) o3
        × Serial plan o1 (noted answer a done) o3
  send-Serial s o1 o2 done i a m m' w' (err x) v l saw planned e =
      (o2, refused-Inv plan keeps_meta r stored k serves allowed s o2 m' w' x v e, l)
  send-Serial s o1 o2 done i a m m' w' (ok _) v l saw planned e =
      let (o3, v3, planned3, same, kept) =
        accepted-Inv plan keeps_meta r stored k serves allowed s o2 i a m m' w' v saw planned e in
      (o3, v3, after a l planned3 same kept)

  -- Whatever the interleaving, the stored object is what the accepted intents make one after the
  -- other of the one that was stored at first.
  pub Reach-Serial :
      {s : System W S T} {o : Object S T} {t : System W S T}
      → Inv stored k s o
      → (past : Reach plan r k allowed s t)
      → (o' : Object S T) × Inv stored k t o' × Serial plan o (log past) o'
  unfolding log
  Reach-Serial {o = o} v here = (o, v, begin)
  Reach-Serial {o = o} v (next {t} past (read i {m} {w'} e)) =
      let (o1, v1, l1) = Reach-Serial v past in
      (o1, read-Inv plan keeps_meta r stored k serves allowed t o1 i m w' v1 e, l1)
  Reach-Serial {o = o} v (next {t} past (send i a {m} {m'} {w'} {answer} can saw planned e)) =
      let (o1, v1, l1) = Reach-Serial v past in
      send-Serial t o o1 (log past) i a m m' w' answer v1 l1 saw planned e
