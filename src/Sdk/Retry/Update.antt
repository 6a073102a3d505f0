-- ===== src/Sdk/Retry/Update.antt =====
-- What the updates of sdk/go/client/retry.go have done when they succeed.
use konductor.Prelude.{◌≡◌, refl, subst, Action, arith}
use konductor.Prelude.{inl, inr}
use konductor.Api.Meta.{ObjectKey, Object}
use konductor.Api.Errors.{Result, Result-cases, ok}
use konductor.Client.Server.{Resource}
use konductor.Sdk.Host.{Host, Polls, BacksOff}
use konductor.Sdk.Wait.{attempt}
use konductor.Sdk.Wait.Retry.{last_passed, attempt_passed}
use konductor.Sdk.Retry.{
  default_retry_config, retry_backoff, retry_on_conflict, edit_once, status_update_with_retry,
}

conflict_passed :
    {W : Type 0} (h : Host W) (fn : Action W (Result (Unit {0}))) (w w' : W)
    → BacksOff h
    → retry_on_conflict h fn w ≡ (ok tt, w')
    → (u : W) × (fn u ≡ (ok tt, w'))
unfolding retry_on_conflict
conflict_passed h fn w w' polls e =
    let b = retry_backoff default_retry_config in
    let p : Polls (attempt h fn) b.steps w (ok tt) w' =
      subst (λ p. Polls (attempt h fn) b.steps w p.0 p.1) e (polls b (attempt h fn) w) in
    let (u, last) = last_passed p refl in (u, attempt_passed h fn u w' last)

module _ {W S T : Type 0} (h : Host W) (r : Resource W S T) (k : ObjectKey)
    (update_fn : Object S T → Result (Object S T)) where
  -- A read, a change of what it gave, and an update with that which is accepted.
  pub record Edited (last : W) : Type 0 where
    pub latest : Object S T
    pub changed : Object S T
    pub read_at : W
    pub sent_at : W
    pub read : r.get k read_at ≡ (ok latest, sent_at)
    pub computed : update_fn latest ≡ ok changed
    pub sent : r.status_update changed sent_at ≡ (ok tt, last)

  edit_once-Edited :
      (u w' : W) → edit_once h r r.status_update k update_fn u ≡ (ok tt, w') → Edited w'
  unfolding edit_once
  edit_once-Edited u w' e = elim (Result-cases (r.get k u).0) [
    | inl (x, failed) ↦ absurd (ground arith)
    | inr (o, found) ↦ elim (Result-cases (update_fn o)) [
      | inl (x, failed) ↦ absurd (ground arith)
      | inr (o', computed) ↦ record {
        latest = o;
        changed = o';
        read_at = u;
        sent_at = (r.get k u).1;
        read = ground arith;
        computed = computed;
        sent = ground arith;
      }
    ]
  ]

  -- If `StatusUpdateWithRetry` succeeds, its last round read the object, changed what it read, and
  -- sent the result in an update that the server accepted.
  status_update_with_retry-Edited :
      (w w' : W) → BacksOff h → status_update_with_retry h r k update_fn w ≡ (ok tt, w') → Edited w'
  unfolding status_update_with_retry
  status_update_with_retry-Edited w w' polls e =
      let (u, done) = conflict_passed h (edit_once h r r.status_update k update_fn) w w' polls e in
      edit_once-Edited u w' done
