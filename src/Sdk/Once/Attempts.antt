-- ===== src/Sdk/Once/Attempts.antt =====
-- What `Do` of sdk/go/once/once.go has done when it says that this call executed the function.
use konductor.Prelude.{
  ◌≡◌, refl, ℕ, none, some, zero, suc, ◌*◌, true, false, Bool-cases, ◌⊎◌, inl, inr, String, List,
  Action, arith,
}
use konductor.Api.Meta.{millisecond}
use konductor.Api.Errors.{Result, Result-cases, ok, err, wrap, is_conflict}
use konductor.Api.Locks.{Once, OncePhase}
use konductor.Sdk.Host.{Host, key, resolve_holder}
use konductor.Sdk.Options.{Setter, apply, no_options}
use konductor.Sdk.Once.{Outcome, mark, claim, rollback, run_marked, attempts, do_once}

module _ {W : Type 0} (h : Host W) (name : String) (fn : Action W (Result (Unit {0}))) where
  -- What a function that ended has made of the result of the call.
  abbrev Reported : Result (Unit {0}) → W → Outcome × W → Type 0
  Reported (ok _) last result = result ≡ (record { executed = true; error = none }, last)
  Reported (err e) last result =
      (text : String) × (result.0 ≡ record { executed = true; error = some (wrap text e) })

  -- The function ran, in a world, and the call reports what it returned.
  pub record Ended (ran_at : W) (result : Outcome × W) : Type 0 where
    pub done : Result (Unit {0})
    pub last : W
    pub ran : fn ran_at ≡ (done, last)
    pub reported : Reported done last result

  -- A read of a record that was not executed, the accepted update that marks it, and then the
  -- function in the world that this update left.
  pub record Ran (executor : String) (result : Outcome × W) : Type 0 where
    pub once : Once
    pub sent : Once
    pub read_at : W
    pub marked_at : W
    pub ran_at : W
    pub read : h.client.onces.get (key h name) read_at ≡ (ok once, marked_at)
    pub fresh : once.status.executed ≡ false
    pub same : sent.meta ≡ once.meta
    pub marks_as : sent.status ≡ record {
      executed = true;
      executor = executor;
      executed_at = some (h.client.clock marked_at);
      phase = OncePhase.executed;
    }
    pub marked : h.client.onces.status_update sent marked_at ≡ (ok tt, ran_at)
    pub ended : Ended ran_at result

  run_marked-Ended : (w : W) (p : Outcome × W) → run_marked h name fn w ≡ p → Ended w p
  unfolding run_marked
  run_marked-Ended w p e = elim (Result-cases (fn w).0) [
    | inl (x, failed) ↦ record {
      done = err x;
      last = (fn w).1;
      ran = ground arith;
      reported =
          let undone = rollback h name 3 (100 * millisecond) (fn w).1 in (undone.0, ground arith);
    }
    | inr (_, fine) ↦ record {
      done = ok tt;
      last = (fn w).1;
      ran = ground arith;
      reported = ground arith;
    }
  ]

  -- One round of the loop runs the function or, after a conflict, leaves all to the next one.
  attempts_step :
      (executor : String) (n backoff : ℕ) (w : W) (p : Outcome × W)
      → attempts h name executor fn (suc n) backoff w ≡ p
      → p.0.executed ≡ true
      → Ran executor p ⊎ ((u : W) × (attempts h name executor fn n (backoff * 2) u ≡ p))
  unfolding attempts claim
  attempts_step executor n backoff w p e ended =
      let u = (h.client.onces.get (key h name) w).1 in
      elim (Result-cases (h.client.onces.get (key h name) w).0) [
        | inl (x, failed) ↦ absurd (ground arith)
        | inr (o, found) ↦ elim (Bool-cases o.status.executed) [
          | inl over ↦ absurd (ground arith)
          | inr fresh ↦
              let sent = h.client.onces.status_update (mark (h.client.clock u) executor o) u in
              elim (Result-cases sent.0) [
                | inl (x, refused) ↦ elim (Bool-cases (is_conflict x)) [
                  | inl again ↦ inr ((h.pause backoff sent.1).1, ground arith)
                  | inr other ↦ absurd (ground arith)
                ]
                | inr (_, written) ↦ inl (record {
                  once = o;
                  sent = mark (h.client.clock u) executor o;
                  read_at = w;
                  marked_at = u;
                  ran_at = sent.1;
                  read = ground arith;
                  fresh = fresh;
                  same = refl;
                  marks_as = refl;
                  marked = ground arith;
                  ended = run_marked-Ended sent.1 p (ground arith);
                })
              ]
        ]
      ]

  attempts-Ran :
      (executor : String) (n backoff : ℕ) (w : W) (p : Outcome × W)
      → attempts h name executor fn n backoff w ≡ p
      → p.0.executed ≡ true
      → Ran executor p
  unfolding attempts
  attempts-Ran executor zero backoff w p e ended = absurd (ground arith)
  attempts-Ran executor (suc n) backoff w p e ended =
      elim (attempts_step executor n backoff w p e ended) [
        | inl ran ↦ ran
        | inr (u, rest) ↦ attempts-Ran executor n (backoff * 2) u p rest ended
      ]

  -- If `Do` says that this call executed the function, then it read the record as not executed, the
  -- server accepted the update by which it marked that very record as executed by its executor, and
  -- then the function ran in the world that the update left; `Do` returns no error, in the world
  -- that the function left, if the function succeeded, and wraps its error if it failed.
  pub do_once-Ran :
      (opts : List Setter) (w : W) (p : Outcome × W)
      → do_once h name fn opts w ≡ p
      → p.0.executed ≡ true
      → Ran (resolve_holder h (apply opts no_options).holder w).0 p
  unfolding do_once
  do_once-Ran opts w p e ended = attempts-Ran _ 5 _ _ p e ended
