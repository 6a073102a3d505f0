-- ===== src/Sdk/Barrier/Arrivals.antt =====
-- The arrivals that calls of `Arrive` of sdk/go/barrier/barrier.go leave with the server.
use konductor.Prelude.{
  ◌≡◌, refl, sym, ◌∙◌, subst, ap, ℕ, suc, ◌≤◌, true, false, Bool-cases, inl, inr, String, eq_iff,
  Option, none, some, List, [], ◌∷◌, length, All, arith,
}
use konductor.Api.Meta.{ObjectKey, key_of, same_key}
use konductor.Api.Errors.{Result-cases, ok}
use konductor.Api.Counters.{Barrier, Arrival}
use konductor.Client.Server.Collection.{
  Collects, has_labels, is_listed, AllDistinct, same_key-eq, listed-length,
}
use konductor.Sdk.Host.{Host, key, resolve_holder}
use konductor.Sdk.Options.{Setter, apply, no_options}
use konductor.Sdk.Barrier.{arrive, new_arrival}

module _ {W : Type 0} (h : Host W) (name : String) (arrived : W → ObjectKey → Option Arrival) where
  -- What happens up to a world: successful calls of `Arrive` on any hosts, and between them anything
  -- that leaves the arrivals alone that are there. The number is that of the calls.
  pub data Arrivals (start : W) : ℕ → W → Type 0 where
    nobody : Arrivals start 0 start
    arrives :
        {n : ℕ} {u v : W} (hostname : String) (opts : List Setter)
        → Arrivals start n u
        → arrive (record h { hostname = hostname }) name opts u ≡ (ok tt, v)
        → Arrivals start (suc n) v
    meanwhile :
        {n : ℕ} {u v : W}
        → Arrivals start n u
        → ((k : ObjectKey) (a : Arrival) → arrived u k ≡ some a → arrived v k ≡ some a)
        → Arrivals start n v

  -- An arrival at the barrier is stored under the key.
  pub record Stands (w : W) (k : ObjectKey) : Type 0 where
    pub arrival : Arrival
    pub is_there : arrived w k ≡ some arrival
    pub here : k.namespace ≡ h.namespace
    pub labelled : has_labels (("barrier", name) ∷ []) arrival.meta.labels ≡ true

  -- As many different arrivals stand as there were calls.
  pub record Gathered (n : ℕ) (w : W) : Type 0 where
    pub keys : List ObjectKey
    pub counted : length keys ≡ n
    pub different : AllDistinct keys
    pub stand : All (Stands w) keys

  all_stand :
      (u v : W) (ks : List ObjectKey)
      → ((k : ObjectKey) (a : Arrival) → arrived u k ≡ some a → arrived v k ≡ some a)
      → All (Stands u) ks
      → All (Stands v) ks
  all_stand u v [] kept s = tt
  all_stand u v (k ∷ ks) kept s = (
    record {
      arrival = s.0.arrival;
      is_there = kept k s.0.arrival s.0.is_there;
      here = s.0.here;
      labelled = s.0.labelled;
    },
    all_stand u v ks kept s.1,
  )

  all_stand_elsewhere :
      (u v : W) (k : ObjectKey) (ks : List ObjectKey)
      → ((j : ObjectKey) → same_key j k ≡ false → arrived v j ≡ arrived u j)
      → All (λ j. same_key j k ≡ false) ks
      → All (Stands u) ks
      → All (Stands v) ks
  all_stand_elsewhere u v k [] same others s = tt
  all_stand_elsewhere u v k (j ∷ ks) same others s = (
    record {
      arrival = s.0.arrival;
      is_there = same j others.0 ∙ s.0.is_there;
      here = s.0.here;
      labelled = s.0.labelled;
    },
    all_stand_elsewhere u v k ks same others.1 s.1,
  )

  -- An arrival that stands has another key than one that is free.
  all_other :
      (u : W) (k : ObjectKey) (ks : List ObjectKey)
      → arrived u k ≡ none
      → All (Stands u) ks
      → All (λ j. same_key j k ≡ false) ks
  all_other u k [] free s = tt
  all_other u k (j ∷ ks) free s = (
    elim (Bool-cases (same_key j k)) [
      | inr other ↦ other
      | inl same ↦
          let taken =
            subst (λ x. arrived u x ≡ some s.0.arrival) (same_key-eq j k same) s.0.is_there in
          absurd (cc)
    ],
    all_other u k ks free s.1,
  )

  label_found : has_labels (("barrier", name) ∷ []) (("barrier", name) ∷ []) ≡ true
  label_found = ground (arith, eq_iff name name)

  -- A call of `Arrive` that succeeds reads the barrier and creates an arrival.
  arrive-creates :
      (hostname : String) (opts : List Setter) (u v : W)
      → arrive (record h { hostname = hostname }) name opts u ≡ (ok tt, v)
      → (b : Barrier) × (holder : String) × (h.client.arrivals.create
            (new_arrival h b name holder)
            (h.client.barriers.get (key h name) u).1
          ≡ (ok tt, v))
  unfolding arrive resolve_holder
  arrive-creates hostname opts u v e =
      let holder =
        (resolve_holder (record h { hostname = hostname }) (apply opts no_options).holder u).0 in
      let found = h.client.barriers.get (key h name) u in
      elim (Result-cases found.0) [
        | inl (x, missing) ↦ absurd (ground arith)
        | inr (b, read) ↦
            let made = h.client.arrivals.create (new_arrival h b name holder) found.1 in
            elim (Result-cases made.0) [
              | inl (x, refused) ↦ absurd (ground arith)
              | inr (_, done) ↦ (b, holder, ground arith)
            ]
      ]

  module _ (collects : Collects h.client.arrivals arrived)
      (get_apart : (k : ObjectKey) (w : W) (j : ObjectKey)
        → arrived (h.client.barriers.get k w).1 j ≡ arrived w j) where
    Gathered-arrival :
        (u v : W) (n : ℕ) (b : Barrier) (holder : String)
        → Gathered n u
        → h.client.arrivals.create
            (new_arrival h b name holder)
            (h.client.barriers.get (key h name) u).1
          ≡ (ok tt, v)
        → Gathered (suc n) v
    Gathered-arrival u v n b holder g e =
        let sent = new_arrival h b name holder in
        let k = key_of sent.meta in
        let w = (h.client.barriers.get (key h name) u).1 in
        let made = collects.create-ok sent w v e in
        let others =
          all_other u k g.keys (sym (get_apart (key h name) u k) ∙ made.was_free) g.stand in
        record {
          keys = k ∷ g.keys;
          counted = ap suc g.counted;
          different = (others, g.different);
          stand = (
            record {
              arrival = made.now;
              is_there = made.is_now;
              here = refl;
              labelled = rw made.same_labels label_found;
            },
            all_stand_elsewhere u v k g.keys
                (λ j other.
                  collects.create_elsewhere sent w v j e other ∙ get_apart (key h name) u j)
                others g.stand,
          );
        }

    Arrivals-Gathered : {start w : W} {n : ℕ} → Arrivals start n w → Gathered n w
    Arrivals-Gathered nobody = record { keys = []; counted = refl; different = tt; stand = tt }
    Arrivals-Gathered {w = v} (arrives {n} {u} hostname opts past e) =
        let (b, holder, made) = arrive-creates hostname opts u v e in
        Gathered-arrival u v n b holder (Arrivals-Gathered past) made
    Arrivals-Gathered {w = v} (meanwhile {u = u} past kept) =
        let g = Arrivals-Gathered past in
        record {
          keys = g.keys;
          counted = g.counted;
          different = g.different;
          stand = all_stand u v g.keys kept g.stand;
        }

    listed :
        (w w' : W) (os : List Arrival) (ks : List ObjectKey)
        → h.client.arrivals.list h.namespace (("barrier", name) ∷ []) w ≡ (ok os, w')
        → All (Stands w) ks
        → All (λ k. is_listed k os ≡ true) ks
    listed w w' os [] e s = tt
    listed w w' os (k ∷ ks) e s = (
      collects.list_complete h.namespace (("barrier", name) ∷ []) w w' k s.0.arrival e s.0.is_there
          s.0.here s.0.labelled,
      listed w w' os ks e s.1,
    )

    -- The reconciler counts as many arrivals as there were calls, or more.
    pub Arrivals-le-listed :
        {start : W} (w w' : W) (n : ℕ) (os : List Arrival)
        → Arrivals start n w
        → h.client.arrivals.list h.namespace (("barrier", name) ∷ []) w ≡ (ok os, w')
        → n ≤ length os
    Arrivals-le-listed w w' n os past e =
        let g = Arrivals-Gathered past in
        omega
          (arith, g.counted, listed-length g.keys os g.different (listed w w' os g.keys e g.stand))
