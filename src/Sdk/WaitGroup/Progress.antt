-- ===== src/Sdk/WaitGroup/Progress.antt =====
-- That `Add`, `Done` and `Wait` of sdk/go/waitgroup/waitgroup.go return, and what they leave.
use konductor.Prelude.{
  ◌≡◌, refl, subst, ◌∙◌, ap, ℕ, zero, suc, ◌*◌, ◌^◌, ◌<◌, ◌≤◌, ℤ, pos, negsuc, ◌+ℤ◌, leb_ℤ, eqb_ℤ,
  eq_of_parts, int32_of_IsInt32, String, Option, none, some, List, arith,
}
use konductor.Api.Meta.{ObjectKey, second}
use konductor.Api.Errors.{ok}
use konductor.Api.Counters.{WaitGroup}
use konductor.Client.Server.Availability.{update_answered}
use konductor.Sdk.Host.{Host, key}
use konductor.Sdk.Options.{Setter, apply, no_options}
use konductor.Sdk.Wait.Backoff.{max_backoff_steps}
use konductor.Sdk.Wait.Progress.{default-IsTimed, Undisturbed, retry_at_once, wait_at_once}
use konductor.Sdk.WaitGroup.{count, advance, wait_config, add_once, confirm, add, done, wait}

-- The server holds the wait group under a key with a counter.
abbrev pub HasCounter :
    {W : Type 0} → (W → ObjectKey → Option WaitGroup) → W → ObjectKey → ℤ → Type 0
HasCounter stored w k n = (o : WaitGroup) × (stored w k ≡ some o) × (o.status.counter ≡ n)

-- Some calls of `Done`, one after the other, each of which returns no error.
pub data Dones {W : Type 0} (h : Host W) (name : String) : ℕ → W → W → Type 0 where
  no_more : {w : W} → Dones h name 0 w w
  one_more :
      {n : ℕ} {w u v : W}
      → done h name w ≡ (ok tt, u)
      → Dones h name n u v
      → Dones h name (suc n) w v

count_of : (a b : ℤ) (n : ℕ) → a +ℤ b ≡ pos n → n < 2 ^ 31 → count a b ≡ pos n
unfolding count
count_of a b n sum small =
    let exact = int32_of_IsInt32 (pos n) (ground arith) in rw (sum, exact, count) (ground arith)

count_up : (n : ℕ) → n < 2 ^ 31 → count (pos 0) (pos n) ≡ pos n
unfolding ◌+ℤ◌
count_up n small = count_of (pos 0) (pos n) n (ground arith) small

count_down : (n : ℕ) → suc n < 2 ^ 31 → count (pos (suc n)) (negsuc 0) ≡ pos n
unfolding ◌+ℤ◌
count_down n small =
    count_of (pos (suc n)) (negsuc 0) n (eq_of_parts _ _ (ground arith)) (omega (arith, small))

module _ {W : Type 0} (h : Host W) (stored : W → ObjectKey → Option WaitGroup)
    (calm : Undisturbed h h.client.wait_groups stored) where
  add_once_answered :
      (name : String) (counter delta : ℤ) (w : W)
      → HasCounter stored w (key h name) counter
      → (u : W) × (add_once h name delta w ≡ (ok tt, u))
        × HasCounter stored u (key h name) (count counter delta)
  unfolding add_once advance
  add_once_answered name counter delta w (o, held, is) =
      let k = key h name in
      let (u, sent, (o', is_now, status)) =
        update_answered h.client.wait_groups stored calm.serves calm.answers k o (advance delta o) w
          held refl in
      let read = calm.answers.finds k w o held in
      (u, ground arith, (o', is_now, ap (λ s. s.counter) status ∙ ap (λ n. count n delta) is))

  confirm_counter :
      (name : String) (counter : ℤ) (w : W)
      → HasCounter stored w (key h name) counter
      → (w' : W) × (confirm h name counter w ≡ (ok tt, w'))
        × HasCounter stored w' (key h name) counter
  unfolding confirm
  confirm_counter name counter w (o, held, is) =
      let (w', seen, aside) =
        wait_at_once h h.client.wait_groups stored calm (key h name)
          (λ wg. eqb_ℤ wg.status.counter counter) none o w default-IsTimed held (ground arith) in
      (w', ground arith, (o, aside (key h name) ∙ held, is))

  add_answered :
      (name : String) (counter delta : ℤ) (w : W)
      → HasCounter stored w (key h name) counter
      → (w' : W) × (add h name delta w ≡ (ok tt, w'))
        × HasCounter stored w' (key h name) (count counter delta)
  unfolding add
  add_answered name counter delta w held =
      let (u, once, (o, there, is)) = add_once_answered name counter delta w held in
      let retried =
        retry_at_once h h.client.wait_groups stored calm (add_once h name delta) none w u
          default-IsTimed once in
      let read = calm.answers.finds (key h name) u o there in
      let (w', confirmed, still) = confirm_counter name o.status.counter u (o, there, refl) in
      (w', ground arith, subst (HasCounter stored w' (key h name)) is still)

  all_done :
      (name : String) (n : ℕ) (w : W)
      → n < 2 ^ 31
      → HasCounter stored w (key h name) (pos n)
      → (w' : W) × Dones h name n w w' × HasCounter stored w' (key h name) (pos 0)
  unfolding done
  all_done name zero w small held = (w, no_more, held)
  all_done name (suc n) w small held =
      let (u, added, lower) = add_answered name (pos (suc n)) (negsuc 0) w held in
      let (w', rest, none_left) =
        all_done name n u (omega (arith, small))
          (subst (HasCounter stored u (key h name)) (count_down n small) lower) in
      (w', one_more added rest, none_left)

  wait_answered :
      (name : String) (opts : List Setter) (w : W)
      → (wait_config (apply opts no_options).timeout).timeout ≤ max_backoff_steps * (5 * second)
      → HasCounter stored w (key h name) (pos 0)
      → (w' : W) × (wait h name opts w ≡ (ok tt, w'))
  unfolding wait
  wait_answered name opts w limit (o, held, is) =
      let (w', seen, aside) =
        wait_at_once h h.client.wait_groups stored calm (key h name)
          (λ wg. leb_ℤ wg.status.counter (pos 0))
          (some (wait_config (apply opts no_options).timeout)) o w
          (record { delays = omega arith; times_out = ground arith; limited = limit }) held
          (ground arith) in
      (w', ground arith)

  -- Where nothing else happens meanwhile, and with a timeout of at most a million times 5 seconds:
  -- `Add` of a number below 2^31 to a wait group with the counter 0 succeeds and leaves that counter,
  -- as many calls of `Done` succeed and leave the counter 0, and then `Wait` returns no error.
  pub add_done_wait :
      (name : String) (n : ℕ) (opts : List Setter) (w : W)
      → n < 2 ^ 31
      → (wait_config (apply opts no_options).timeout).timeout ≤ max_backoff_steps * (5 * second)
      → HasCounter stored w (key h name) (pos 0)
      → (u : W) × (add h name (pos n) w ≡ (ok tt, u))
        × HasCounter stored u (key h name) (pos n)
        × ((v : W) × Dones h name n u v
            × HasCounter stored v (key h name) (pos 0)
            × ((w' : W) × (wait h name opts v ≡ (ok tt, w'))))
  add_done_wait name n opts w small limit held =
      let (u, added, counted) = add_answered name (pos 0) (pos n) w held in
      let full = subst (HasCounter stored u (key h name)) (count_up n small) counted in
      let (v, dones, none_left) = all_done name n u small full in
      (u, added, full, (v, dones, none_left, wait_answered name opts v limit none_left))
