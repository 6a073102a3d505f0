-- ===== src/Sdk/Wait/Retry.antt =====
-- What `RetryWithBackoff` and `WaitForCondition` promise to their callers.
use konductor.Prelude.{
  ◌≡◌, refl, subst, ◌∙◌, ◌⊎◌, inl, inr, ℕ, Bool, true, false, Option, Action, arith,
}
use konductor.Api.Meta.{ObjectKey, Object}
use konductor.Api.Errors.{Error, Result, Result-cases, ok, err, timed_out, panicked, is_conflict}
use konductor.Client.Server.{Resource}
use konductor.Sdk.Host.{Host, Polls, BacksOff, gave_up, passed, failed, again}
use konductor.Sdk.Wait.{
  WaitConfig, or_default, backoff_of, poll, wait_for_condition, attempt, back_off,
  retry_with_backoff,
}

module _ {W : Type 0} {check : Action W (Result Bool)} where
  pub last_passed :
      {n : ℕ} {w w' : W} {r : Result (Unit {0})}
      → Polls check n w r w'
      → r ≡ ok tt
      → (u : W) × (check u ≡ (ok true, w'))
  last_passed gave_up e = cc
  last_passed (passed {w = u} h) e = (u, h)
  last_passed (failed h) e = cc
  last_passed (again h p) e = last_passed p e

  last_failed :
      {n : ℕ} {w w' : W} {r : Result (Unit {0})} {x : Error}
      → Polls check n w r w'
      → r ≡ err x
      → (x ≡ timed_out) ⊎ ((u : W) × (check u ≡ (err x, w')))
  last_failed gave_up e = inl cc
  last_failed (passed h) e = cc
  last_failed (failed {w = u} h) e = inr (u, h ∙ cc)
  last_failed (again h p) e = last_failed p e

failed_panicked :
    {W : Type 0} (h : Host W) (config : WaitConfig) (e : Error)
    → backoff_of h config ≡ err e
    → e ≡ panicked
unfolding backoff_of
failed_panicked h config e f = ground arith

-- The documented behaviour of the backoff, at a call that has not panicked before.
backed_off :
    {W : Type 0} (h : Host W) (config : WaitConfig) (check : Action W (Result Bool)) (w w' : W)
    (r : Result (Unit {0}))
    → BacksOff h
    → back_off h config check w ≡ (r, w')
    → (r ≡ err panicked) ⊎ ((n : ℕ) × Polls check n w r w')
unfolding back_off
backed_off h config check w w' r polls e = elim (Result-cases (backoff_of h config)) [
  | inl (x, f) ↦ inl (ground (arith, failed_panicked h config x))
  | inr (b, f) ↦
      let made : h.exponential_backoff b check w ≡ (r, w') = rw (f, back_off) at e in
      inr (b.steps, subst (λ p. Polls check b.steps w p.0 p.1) made (polls b check w))
]

pub attempt_passed :
    {W : Type 0} (h : Host W) (fn : Action W (Result (Unit {0}))) (u w' : W)
    → attempt h fn u ≡ (ok true, w')
    → fn u ≡ (ok tt, w')
unfolding attempt
attempt_passed h fn u w' e = elim (Result-cases (fn u).0) [
  | inl (x, stuck) ↦ ground arith
  | inr (_, done) ↦ ground arith
]

attempt_failed :
    {W : Type 0} (h : Host W) (fn : Action W (Result (Unit {0}))) (u w' : W) (x : Error)
    → attempt h fn u ≡ (err x, w')
    → (is_conflict x ≡ false) × (fn u ≡ (err x, w'))
unfolding attempt
attempt_failed h fn u w' x e = elim (Result-cases (fn u).0) [
  | inl (y, stuck) ↦ ground arith
  | inr (_, done) ↦ ground arith
]

-- A retry succeeds only by a call of the operation that succeeded, and leaves the world as that
-- call left it.
pub retry_sound :
    {W : Type 0} (h : Host W) (fn : Action W (Result (Unit {0}))) (config : Option WaitConfig)
    (w w' : W)
    → BacksOff h
    → retry_with_backoff h fn config w ≡ (ok tt, w')
    → (u : W) × (fn u ≡ (ok tt, w'))
unfolding retry_with_backoff
retry_sound h fn config w w' polls e = elim (backed_off h _ _ w w' _ polls e) [
  | inl p ↦ absurd (cc)
  | inr (n, p) ↦ let (u, last) = last_passed p refl in (u, attempt_passed h fn u w' last)
]

-- A retry that fails has panicked or timed out, or returns the error of its last call of the
-- operation, which is no conflict: conflicts are never passed on.
retry_error :
    {W : Type 0} (h : Host W) (fn : Action W (Result (Unit {0}))) (config : Option WaitConfig)
    (w w' : W) (x : Error)
    → BacksOff h
    → retry_with_backoff h fn config w ≡ (err x, w')
    → ((x ≡ panicked) ⊎ (x ≡ timed_out))
      ⊎ ((is_conflict x ≡ false) × ((u : W) × (fn u ≡ (err x, w'))))
unfolding retry_with_backoff
retry_error h fn config w w' x polls e = elim (backed_off h _ _ w w' _ polls e) [
  | inl p ↦ inl (inl (cc))
  | inr (n, p) ↦ elim (last_failed p refl) [
    | inl late ↦ inl (inr late)
    | inr (u, last) ↦
        inr ((attempt_failed h fn u w' x last).0, (u, (attempt_failed h fn u w' x last).1))
  ]
]

poll_passed :
    {W S T : Type 0} (h : Host W) (r : Resource W S T) (k : ObjectKey)
    (condition : Object S T → Bool) (u w' : W)
    → poll h r k condition u ≡ (ok true, w')
    → (o : Object S T) × (r.get k u ≡ (ok o, w')) × (condition o ≡ true)
unfolding poll
poll_passed h r k condition u w' e = elim (Result-cases (r.get k u).0) [
  | inl (x, missing) ↦ ground arith
  | inr (o, found) ↦ (o, ground arith, ground arith)
]

-- A wait that succeeds has slept for its operator delay and backed off.
waited :
    {W S T : Type 0} (h : Host W) (r : Resource W S T) (k : ObjectKey)
    (condition : Object S T → Bool) (config : Option WaitConfig) (w w' : W)
    → wait_for_condition h r k condition config w ≡ (ok tt, w')
    → (v : W) × (back_off h (or_default config) (poll h r k condition) v ≡ (ok tt, w'))
unfolding wait_for_condition
waited h r k condition config w w' e =
    elim (Result-cases (h.sleep (or_default config).operator_delay w).0) [
      | inl (x, cancelled) ↦ ground arith
      | inr (_, slept) ↦ ((h.sleep (or_default config).operator_delay w).1, ground arith)
    ]

-- A wait that succeeds has, with its last call, read an object that meets the condition.
pub wait_sound :
    {W S T : Type 0} (h : Host W) (r : Resource W S T) (k : ObjectKey)
    (condition : Object S T → Bool) (config : Option WaitConfig) (w w' : W)
    → BacksOff h
    → wait_for_condition h r k condition config w ≡ (ok tt, w')
    → (u : W) × ((o : Object S T) × (r.get k u ≡ (ok o, w')) × (condition o ≡ true))
wait_sound h r k condition config w w' polls e =
    let (v, slept) = waited h r k condition config w w' e in
    elim (backed_off h _ _ v w' _ polls slept) [
      | inl p ↦ absurd (cc)
      | inr (n, p) ↦
          let (u, last) = last_passed p refl in (u, poll_passed h r k condition u w' last)
    ]
