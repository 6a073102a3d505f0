-- ===== src/Client/Race/Atomic.antt =====
-- Each step of a race changes the stored object in one piece, or not at all.
use konductor.Prelude.{
  ◌≡◌, eq_of_some, refl, sym, ap, ◌∙◌, subst, inl, inr, ℕ, ◌<◌, ◌==◌, Bool, true, Bool-cases,
  Option, some, arith,
}
use konductor.Api.Meta.{ObjectKey, Object, key_of}
use konductor.Api.Errors.{Error, Result, ok, err}
use konductor.Client.Server.{Resource, Serves, Replaced}
use konductor.Client.Race.{System, remember, Step, read, send, Reach, here, next, IsPast, Inv}

-- The stored status stays, or becomes what an allowed intent makes of the object that was stored.
pub data Change {S T A : Type 0} (plan : A → Object S T → Option (Object S T)) (allowed : A → Bool)
    (o o' : Object S T) : Type 0 where
  keeps : o'.status ≡ o.status → Change plan allowed o o'
  becomes :
      (a : A) (m : Object S T)
      → allowed a ≡ true
      → plan a o ≡ some m
      → o'.status ≡ m.status
      → Change plan allowed o o'

module _ {W S T A : Type 0} (plan : A → Object S T → Option (Object S T))
    (keeps_meta : (a : A) (m m' : Object S T) → plan a m ≡ some m' → m'.meta ≡ m.meta)
    (r : Resource W S T) (stored : W → ObjectKey → Option (Object S T)) (k : ObjectKey)
    (serves : Serves r stored) (allowed : A → Bool) where
  -- What a step has made of the system.
  abbrev After : Object S T → System W S T → Type 0
  After o t = (o' : Object S T) × Inv stored k t o' × Change plan allowed o o'

  -- A read leaves the stored object alone.
  pub read-Inv :
      (s : System W S T) (o : Object S T) (i : ℕ) (m : Object S T) (w' : W)
      → Inv stored k s o
      → r.get k s.world ≡ (ok m, w')
      → Inv stored k (record { world = w'; seen = remember s.seen i m }) o
  read-Inv s o i m w' v e = record { held = held; past = past }
    where
      held : stored w' k ≡ some o
      held = subst (λ p. stored p.1 k ≡ some o) e (serves.get_keeps k s.world k ∙ v.held)

      same : m ≡ o
      same = eq_of_some (sym (serves.get-ok k s.world w' e) ∙ v.held)

      past : (j : ℕ) (n : Object S T) → remember s.seen i m j ≡ some n → IsPast k n o
      past j n f = elim (Bool-cases (i == j)) [
        | inl own ↦
            let it : m ≡ n = eq_of_some (rw own at f) in
            subst (λ x. IsPast k x o) (sym same ∙ it)
              (record {
                keyed = serves.key_stored k s.world v.held;
                not_newer = omega arith;
                same = λ _. refl;
              })
        | inr other ↦ v.past j n (rw other at f)
      ]

  -- So does an update that the server refuses.
  pub refused-Inv :
      (s : System W S T) (o m' : Object S T) (w' : W) (x : Error)
      → Inv stored k s o
      → r.status_update m' s.world ≡ (err x, w')
      → Inv stored k (record { world = w'; seen = s.seen }) o
  refused-Inv s o m' w' x v e = record {
    held = serves.update_refused m' s.world w' e k ∙ v.held;
    past = v.past;
  }

  -- An update that the server accepts replaces the object that is stored.
  accepted_before :
      (s : System W S T) (o m' : Object S T) (w' : W)
      → Inv stored k s o
      → key_of m'.meta ≡ k
      → r.status_update m' s.world ≡ (ok tt, w')
      → Replaced m' (some o) (stored w' k)
  accepted_before s o m' w' v keyed e =
      subst (λ x. Replaced m' x (stored w' k)) v.held
        (subst (λ q. Replaced m' (stored s.world q) (stored w' q)) keyed
          (serves.update-ok m' s.world w' e))

  -- It was computed from that very object.
  pub accepted_current :
      (s : System W S T) (o : Object S T) (i : ℕ) (a : A) (m m' : Object S T) (w' : W)
      → Inv stored k s o
      → s.seen i ≡ some m
      → plan a m ≡ some m'
      → r.status_update m' s.world ≡ (ok tt, w')
      → (m ≡ o) × Replaced m' (some o) (stored w' k)
  accepted_current s o i a m m' w' v saw planned e = (
    p.same (
        sym (ap (λ x. x.resource_version) meta)
        ∙ sym made.same_version
        ∙ sym (ap (λ x. x.meta.resource_version) (eq_of_some made.was))),
    made,
  )
    where
      meta : m'.meta ≡ m.meta
      meta = keeps_meta a m m' planned

      p : IsPast k m o
      p = v.past i m saw

      made : Replaced m' (some o) (stored w' k)
      made = accepted_before s o m' w' v (ap key_of meta ∙ p.keyed) e

  -- What has been read before an update is older than what it stores.
  older :
      (o m' n : Object S T) (x : Option (Object S T)) (made : Replaced m' (some o) x)
      → IsPast k n o
      → IsPast k n (record m' {
        meta = record made.before.meta { resource_version = made.version };
        spec = made.before.spec;
      })
  older o m' n x made p =
      let grown : o.meta.resource_version < made.version =
        rw (ap (λ z. z.meta.resource_version) (eq_of_some made.was)) made.later in
      record {
        keyed = p.keyed;
        not_newer = omega (arith, p.not_newer, grown);
        same = λ eq. absurd (omega (arith, p.not_newer, grown));
      }

  -- One that it accepts makes of the stored object what its intent makes of it.
  pub accepted-Inv :
      (s : System W S T) (o : Object S T) (i : ℕ) (a : A) (m m' : Object S T) (w' : W)
      → Inv stored k s o
      → s.seen i ≡ some m
      → plan a m ≡ some m'
      → r.status_update m' s.world ≡ (ok tt, w')
      → (o' : Object S T) × Inv stored k (record { world = w'; seen = s.seen }) o'
        × (plan a o ≡ some m')
        × (o'.status ≡ m'.status)
        × (o'.spec ≡ o.spec)
  accepted-Inv s o i a m m' w' v saw planned e =
      let (current, made) = accepted_current s o i a m m' w' v saw planned e in
      (
        record m' {
          meta = record made.before.meta { resource_version = made.version };
          spec = made.before.spec;
        },
        record {
          held = made.is_now;
          past = λ j n f. older o m' n (stored w' k) made (v.past j n f);
        },
        subst (λ x. plan a x ≡ some m') current planned,
        refl,
        ap (λ x. x.spec) (sym (eq_of_some made.was)),
      )

  -- The answer of the server does not matter.
  send-After :
      (s : System W S T) (o : Object S T) (i : ℕ) (a : A) (m m' : Object S T) (w' : W)
      (answer : Result (Unit {0}))
      → Inv stored k s o
      → allowed a ≡ true
      → s.seen i ≡ some m
      → plan a m ≡ some m'
      → r.status_update m' s.world ≡ (answer, w')
      → After o (record { world = w'; seen = s.seen })
  send-After s o i a m m' w' (err x) v can saw planned e =
      (o, refused-Inv s o m' w' x v e, keeps refl)
  send-After s o i a m m' w' (ok _) v can saw planned e =
      let (o', v', planned', same, kept) = accepted-Inv s o i a m m' w' v saw planned e in
      (o', v', becomes a m' can planned' same)

  -- A step leaves the status of the stored object as it was, or makes of it what an allowed intent
  -- makes of the very object that is stored: never of an older one that a process has read.
  pub Step-atomic :
      {s t : System W S T} {o : Object S T}
      → Inv stored k s o
      → Step plan r k allowed s t
      → After o t
  Step-atomic {s} {o = o} v (read i {m} {w'} e) = (o, read-Inv s o i m w' v e, keeps refl)
  Step-atomic {s} {o = o} v (send i a {m} {m'} {w'} {answer} can saw planned e) =
      send-After s o i a m m' w' answer v can saw planned e

  -- What every allowed step keeps of an object is kept along a race.
  pub Reach-keeps :
      (P : Object S T → Type 0)
      → ((o o' : Object S T) → P o → Change plan allowed o o' → P o')
      → {s : System W S T} {o : Object S T} {t : System W S T} → Inv stored k s o
      → P o
      → Reach plan r k allowed s t
      → (o' : Object S T) × Inv stored k t o' × P o'
  Reach-keeps P kept {o = o} v p here = (o, v, p)
  Reach-keeps P kept {o = o} v p (next past last) =
      let (o1, v1, p1) = Reach-keeps P kept v p past in
      let (o2, v2, change) = Step-atomic v1 last in (o2, v2, kept o1 o2 p1 change)
