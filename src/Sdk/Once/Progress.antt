-- ===== src/Sdk/Once/Progress.antt =====
-- That `Do` of sdk/go/once/once.go runs its function for a record that no call has marked, and for no
-- other.
use konductor.Prelude.{
  ◌≡◌, refl, ◌∙◌, ap, ℕ, suc, ◌*◌, Bool, true, false, String, Option, none, some, List, Action,
  arith,
}
use konductor.Api.Meta.{ObjectKey, millisecond}
use konductor.Api.Errors.{Error, Result, ok, err, wrap}
use konductor.Api.Locks.{Once}
use konductor.Client.Server.Availability.{update_answered}
use konductor.Sdk.Host.{Host, key, resolve_holder}
use konductor.Sdk.Options.{Setter, apply, no_options}
use konductor.Sdk.Wait.Progress.{Undisturbed}
use konductor.Sdk.Once.{mark, claim, unmark, rollback, run_marked, attempts, do_once}

-- The server holds the record under a key as executed, or as not executed.
abbrev pub HasExecuted :
    {W : Type 0} → (W → ObjectKey → Option Once) → W → ObjectKey → Bool → Type 0
HasExecuted stored w k executed =
    (o : Once) × (stored w k ≡ some o) × (o.status.executed ≡ executed)

module _ {W : Type 0} (h : Host W) (stored : W → ObjectKey → Option Once)
    (calm : Undisturbed h h.client.onces stored) where
  do_executed :
      (name : String) (fn : Action W (Result (Unit {0}))) (opts : List Setter) (w : W)
      → HasExecuted stored w (key h name) true
      → do_once h name fn opts w ≡ (record { executed = false; error = none }, w)
  unfolding do_once attempts claim resolve_holder
  do_executed name fn opts w (o, held, done) =
      let read = calm.answers.finds (key h name) w o held in ground arith

  do_marked :
      (name : String) (fn : Action W (Result (Unit {0}))) (opts : List Setter) (w : W)
      → HasExecuted stored w (key h name) false
      → (u : W) × HasExecuted stored u (key h name) true
        × (do_once h name fn opts w ≡ run_marked h name fn u)
  unfolding do_once attempts claim resolve_holder
  do_marked name fn opts w (o, held, fresh) =
      let k = key h name in
      let executor = (resolve_holder h (apply opts no_options).holder w).0 in
      let (u, sent, (o', is_now, status)) =
        update_answered h.client.onces stored calm.serves calm.answers k o
          (mark (h.client.clock w) executor o) w held refl in
      let read = calm.answers.finds k w o held in
      (u, (o', is_now, ap (λ s. s.executed) status), ground arith)

  rollback_at_once :
      (name : String) (n backoff : ℕ) (w : W) (executed : Bool)
      → HasExecuted stored w (key h name) executed
      → (w' : W) × (rollback h name (suc n) backoff w ≡ ("execution failed", w'))
        × HasExecuted stored w' (key h name) false
  unfolding rollback
  rollback_at_once name n backoff w executed (o, held, was) =
      let k = key h name in
      let (w', sent, (o', is_now, status)) =
        update_answered h.client.onces stored calm.serves calm.answers k o (unmark o) w held refl in
      let read = calm.answers.finds k w o held in
      (w', ground arith, (o', is_now, ap (λ s. s.executed) status))

  -- Where nothing else happens meanwhile, and with a function that succeeds and leaves the record
  -- alone, `Do` with a record that is not marked as executed runs its function, in a world where the
  -- record is marked, and returns no error; a later `Do`, of any function, then runs nothing and
  -- changes nothing.
  pub do_twice :
      (name : String) (fn g : Action W (Result (Unit {0}))) (opts later : List Setter) (w : W)
      → ((u : W) → stored (fn u).1 (key h name) ≡ stored u (key h name))
      → ((u : W) → (fn u).0 ≡ ok tt)
      → HasExecuted stored w (key h name) false
      → (u : W) × HasExecuted stored u (key h name) true
        × (do_once h name fn opts w ≡ (record { executed = true; error = none }, (fn u).1))
        × (do_once h name g later (fn u).1 ≡ (record { executed = false; error = none }, (fn u).1))
  unfolding run_marked
  do_twice name fn g opts later w aside succeeds fresh =
      let (u, (o, held, done), ran) = do_marked name fn opts w fresh in
      let there = succeeds u in
      (
        u,
        (o, held, done),
        ran ∙ ground arith,
        do_executed name g later (fn u).1 (o, aside u ∙ held, done),
      )

  -- Where nothing else happens meanwhile, and with a record that is not marked as executed, a `Do`
  -- whose function fails and leaves the record alone returns the error and rolls the record back, so
  -- that a later `Do`, whose function succeeds, runs it.
  pub do_again :
      (name : String) (fn g : Action W (Result (Unit {0}))) (opts later : List Setter) (w : W)
      (e : Error)
      → ((u : W) → stored (fn u).1 (key h name) ≡ stored u (key h name))
      → ((u : W) → (fn u).0 ≡ err e)
      → ((u : W) → (g u).0 ≡ ok tt)
      → HasExecuted stored w (key h name) false
      → (v : W) × (do_once h name fn opts w
          ≡ (record { executed = true; error = some (wrap "execution failed" e) }, v))
        × HasExecuted stored v (key h name) false
        × ((u : W) × (do_once h name g later v
              ≡ (record { executed = true; error = none }, (g u).1)))
  unfolding run_marked
  do_again name fn g opts later w e aside fails succeeds fresh =
      let (u, (o, held, done), ran) = do_marked name fn opts w fresh in
      let (v, rolled, free) =
        rollback_at_once name 2 (100 * millisecond) (fn u).1 true (o, aside u ∙ held, done) in
      let (x, marked, later_ran) = do_marked name g later v free in
      let failed = fails u in
      let there = succeeds x in (v, ran ∙ ground arith, free, (x, later_ran ∙ ground arith))
