-- ===== src/Sdk/Barrier/Waiting.antt =====
-- What a `Wait` and a `WaitAndArrive` of sdk/go/barrier/barrier.go that succeed have done.
use konductor.Prelude.{◌≡◌, inl, inr, true, false, Bool-cases, String, some, List, Action, arith}
use konductor.Api.Errors.{Result, Result-cases, ok}
use konductor.Api.Counters.{Barrier}
use konductor.Sdk.Host.{Host, BacksOff, key}
use konductor.Sdk.Options.{Setter, apply, no_options}
use konductor.Sdk.Wait.{wait_for_condition}
use konductor.Sdk.Wait.Retry.{wait_sound}
use konductor.Sdk.Barrier.{
  has_failed, is_settled, wait_config, conclude, wait, arrive, wait_and_arrive,
}

module _ {W : Type 0} (h : Host W) where
  -- The two reads of a wait: the last one of its polls, and the one after it.
  pub record Passed (name : String) (last : W) : Type 0 where
    pub settled : Barrier
    pub final : Barrier
    pub read_at : W
    pub reread_at : W
    pub read : h.client.barriers.get (key h name) read_at ≡ (ok settled, reread_at)
    pub is_final : is_settled settled ≡ true
    pub reread : h.client.barriers.get (key h name) reread_at ≡ (ok final, last)
    pub not_failed : has_failed final ≡ false

  concluded :
      (name : String) (w w' : W)
      → conclude h name w ≡ (ok tt, w')
      → (b : Barrier) × (h.client.barriers.get (key h name) w ≡ (ok b, w')) × (has_failed b ≡ false)
  unfolding conclude
  concluded name w w' e = elim (Result-cases (h.client.barriers.get (key h name) w).0) [
    | inl (x, missing) ↦ absurd (ground arith)
    | inr (b, found) ↦ elim (Bool-cases (has_failed b)) [
      | inl broken ↦ absurd (ground arith)
      | inr fine ↦ (b, ground arith, fine)
    ]
  ]

  -- A `Wait` that succeeds has read the barrier as open or failed, and then, with its last call, as
  -- not failed.
  pub wait-Passed :
      (name : String) (opts : List Setter) (w w' : W)
      → BacksOff h
      → wait h name opts w ≡ (ok tt, w')
      → Passed name w'
  unfolding wait
  wait-Passed name opts w w' polls e =
      let config = some (wait_config (apply opts no_options).timeout) in
      let waited = wait_for_condition h h.client.barriers (key h name) is_settled config w in
      elim (Result-cases waited.0) [
        | inl (x, late) ↦ absurd (ground arith)
        | inr (_, seen) ↦
            let (before, (b, read, settled)) =
              wait_sound h h.client.barriers (key h name) is_settled config w waited.1 polls
                (ground arith) in
            let (final, reread, fine) = concluded name waited.1 w' (ground arith) in
            record {
              settled = b;
              final = final;
              read_at = before;
              reread_at = waited.1;
              read = read;
              is_final = settled;
              reread = reread;
              not_failed = fine;
            }
      ]

  -- A `WaitAndArrive` that succeeds has passed the first barrier, then run the function with
  -- success, and then arrived at the second one, in this order and with nothing in between.
  pub wait_and_arrive_in_order :
      (first second : String) (fn : Action W (Result (Unit {0}))) (opts : List Setter) (w w' : W)
      → BacksOff h
      → wait_and_arrive h first second fn opts w ≡ (ok tt, w')
      → (u v : W) × Passed first u × (fn u ≡ (ok tt, v)) × (arrive h second opts v ≡ (ok tt, w'))
  unfolding wait_and_arrive
  wait_and_arrive_in_order first second fn opts w w' polls e =
      let waited = wait h first opts w in
      elim (Result-cases waited.0) [
        | inl (x, late) ↦ absurd (ground arith)
        | inr (_, passed) ↦ elim (Result-cases (fn waited.1).0) [
          | inl (x, failed) ↦ absurd (ground arith)
          | inr (_, ran) ↦ elim (Result-cases (arrive h second opts (fn waited.1).1).0) [
            | inl (x, refused) ↦ absurd (ground arith)
            | inr (_, arrived) ↦ (
              waited.1,
              (fn waited.1).1,
              wait-Passed first opts w waited.1 polls (ground arith),
              ground arith,
              ground arith,
            )
          ]
        ]
      ]
