-- ===== src/Sdk/Wait/Backoff/Coverage.antt =====
-- That the loop of `calculateBackoffSteps` ends, and how long its steps last.
use konductor.Prelude.{
  ◌≡◌, refl, ap, ◌∙◌, ℕ, zero, suc, ◌+◌, ◌-◌, ◌*◌, ◌/◌, ◌≤◌, ◌<◌, Bool, true, false, Bool-cases,
  ◌&&◌, ltb, ◌==◌, inl, inr, arith,
}
use native.Mathlib.Nat.{div-le_of_le-mul, div-lt_iff_lt-mul}
use konductor.Sdk.Wait.Backoff.{
  steps, max_backoff_steps, next_delay, rest_at_once, loop, positive_delay, growing,
  calculate_backoff_steps,
}

quotient_covers : (x c : ℕ) → 0 < c → x ≤ x / c * c + c
quotient_covers x c h =
    let below : x < suc (x / c) * c =
      (div-lt_iff_lt-mul {k = c} {x = x} {y = suc (x / c)} h).0 (omega arith) in
    omega (arith, below)

quotient_bound : (x c n : ℕ) → x ≤ n * c → x / c ≤ n
quotient_bound x c n l = div-le_of_le-mul c {m = x} {n = n} (omega (arith, l))

module _ (scale : ℕ → ℕ → ℕ) (max_delay factor timeout : ℕ) where
  -- The sum of the delays of some steps, the first of which is `current`.
  unfoldable pub waited : ℕ → ℕ → ℕ
  waited current zero = 0
  waited current (suc k) = current + waited (next_delay scale max_delay factor timeout current) k

  -- A scaling that keeps a delay positive.
  abbrev pub KeepsPositive : Type 0
  KeepsPositive = (d : ℕ) → 0 < d → 0 < scale factor d

  waited_fixed : (c k : ℕ) → next_delay scale max_delay factor timeout c ≡ c → waited c k ≡ k * c
  unfolding waited
  waited_fixed c zero e = omega arith
  waited_fixed c (suc k) e = rw e (omega (arith, waited_fixed c k e))

  next_positive :
      KeepsPositive
      → 0 < max_delay
      → (c : ℕ) → 0 < c
      → 0 < next_delay scale max_delay factor timeout c
  next_positive pos_scale m c h = ground (arith, pos_scale c)

  -- What is to be shown of the loop from a state of its variables.
  abbrev Covers : ℕ → ℕ → ℕ → ℕ → Type 0
  Covers fuel elapsed current n =
      (k : ℕ) × (loop scale max_delay factor timeout fuel elapsed current n ≡ steps (n + k))
      × (timeout ≤ elapsed + waited current k + max_delay)

  abbrev at_limit : ℕ → Bool
  at_limit current =
      let d = next_delay scale max_delay factor timeout current in d == current && d == max_delay

  stop_at :
      (fuel elapsed current n : ℕ)
      → ltb elapsed timeout ≡ false
      → Covers (suc fuel) elapsed current n
  unfolding loop waited
  stop_at fuel elapsed current n over = (0, rw (over, loop) (ap steps (omega arith)), ground arith)

  loop_rest :
      (fuel elapsed current n : ℕ)
      → ltb elapsed timeout ≡ true
      → at_limit current ≡ true
      → loop scale max_delay factor timeout (suc fuel) elapsed current n
        ≡ rest_at_once scale max_delay factor timeout
            (elapsed + current)
            (next_delay scale max_delay factor timeout current)
            (suc n)
  unfolding loop
  loop_rest fuel elapsed current n more full = rw (more, full, loop)

  loop_on :
      (fuel elapsed current n : ℕ)
      → ltb elapsed timeout ≡ true
      → at_limit current ≡ false
      → loop scale max_delay factor timeout (suc fuel) elapsed current n
        ≡ loop scale max_delay factor timeout fuel
            (elapsed + current)
            (next_delay scale max_delay factor timeout current)
            (suc n)
  unfolding loop
  loop_on fuel elapsed current n more moving = rw (more, moving, loop) refl

  rest_steps :
      (elapsed current n : ℕ)
      → 0 < current
      → (timeout - elapsed) / current ≤ max_backoff_steps
      → rest_at_once scale max_delay factor timeout elapsed current n
        ≡ steps (n + (timeout - elapsed) / current)
  unfolding rest_at_once
  rest_steps elapsed current n p small = ground arith

  limit_fixed :
      (current : ℕ)
      → at_limit current ≡ true
      → (next_delay scale max_delay factor timeout current ≡ current) × (current ≡ max_delay)
  limit_fixed current full = ground arith

  -- The fast path: the delay has reached its limit.
  rest-Covers :
      (fuel elapsed current n : ℕ)
      → 0 < max_delay
      → timeout ≤ max_backoff_steps * max_delay
      → ltb elapsed timeout ≡ true
      → at_limit current ≡ true
      → Covers (suc fuel) elapsed current n
  unfolding waited
  rest-Covers fuel elapsed current n m limit more full =
      let (fixed, top) = limit_fixed current full in
      let x = timeout - (elapsed + current) in
      let small : x / current ≤ max_backoff_steps =
        quotient_bound x current max_backoff_steps (rw top (omega (arith, limit))) in
      let covered : x ≤ x / current * current + current =
        quotient_covers x current (omega (arith, m, top)) in
      (
        suc (x / current),
        loop_rest fuel elapsed current n more full
            ∙ ap (λ d. rest_at_once scale max_delay factor timeout (elapsed + current) d (suc n))
                fixed
            ∙ rest_steps (elapsed + current) current (suc n) (omega (arith, m, top)) small
            ∙ ap steps (omega arith),
        rw fixed (rw (waited_fixed current (x / current) fixed) (omega (arith, covered, top))),
      )

  step_on :
      (fuel elapsed current n : ℕ)
      → ltb elapsed timeout ≡ true
      → at_limit current ≡ false
      → Covers fuel (elapsed + current) (next_delay scale max_delay factor timeout current) (suc n)
      → Covers (suc fuel) elapsed current n
  unfolding waited
  step_on fuel elapsed current n more moving (k, computes, enough) = (
    suc k,
    loop_on fuel elapsed current n more moving ∙ computes ∙ ap steps (omega arith),
    omega (arith, enough),
  )

  loop-Covers :
      KeepsPositive
      → 0 < max_delay
      → timeout ≤ max_backoff_steps * max_delay
      → (fuel elapsed current n : ℕ) → 0 < current
      → timeout < elapsed + fuel
      → 0 < fuel
      → Covers fuel elapsed current n
  loop-Covers grows m limit zero elapsed current n p t f = absurd (omega (arith, f))
  loop-Covers grows m limit (suc fuel) elapsed current n p t f =
      elim (Bool-cases (ltb elapsed timeout)) [
        | inr over ↦ stop_at fuel elapsed current n over
        | inl more ↦ elim (Bool-cases (at_limit current)) [
          | inl full ↦ rest-Covers fuel elapsed current n m limit more full
          | inr moving ↦ step_on fuel elapsed current n more moving (
              loop-Covers grows m limit fuel (elapsed + current)
                (next_delay scale max_delay factor timeout current) (suc n)
                (next_positive grows m current p) (omega (arith, p, t)) (ground arith))
        ]
      ]

-- With a positive limit on the delays, a float that scales positive delays to positive ones, and a
-- timeout of at most a million times the limit, `calculateBackoffSteps` ends with a number of steps,
-- and these last as long as the timeout, up to one delay of the limit.
pub calculate_backoff_steps_lem :
    (scale : ℕ → ℕ → ℕ) (initial_delay max_delay factor timeout : ℕ)
    → KeepsPositive scale max_delay (growing factor) timeout
    → 0 < max_delay
    → timeout ≤ max_backoff_steps * max_delay
    → (n : ℕ) × (calculate_backoff_steps scale initial_delay max_delay factor timeout ≡ steps n)
      × (timeout
          ≤ waited scale max_delay (growing factor) timeout (positive_delay initial_delay) n
            + max_delay)
unfolding calculate_backoff_steps
calculate_backoff_steps_lem scale initial_delay max_delay factor timeout grows m limit =
    let (n, computes, enough) =
      loop-Covers scale max_delay (growing factor) timeout grows m limit (suc timeout) 0
        (positive_delay initial_delay) 0 (ground arith) (omega arith) (omega arith) in
    (n, computes ∙ ap steps (omega arith), omega (arith, enough))

-- A positive timeout gives one step at least.
pub calculate_backoff_steps_positive :
    (scale : ℕ → ℕ → ℕ) (initial_delay max_delay factor timeout : ℕ)
    → KeepsPositive scale max_delay (growing factor) timeout
    → 0 < max_delay
    → 0 < timeout
    → timeout ≤ max_backoff_steps * max_delay
    → (k : ℕ) × (calculate_backoff_steps scale initial_delay max_delay factor timeout
        ≡ steps (suc k))
unfolding calculate_backoff_steps
calculate_backoff_steps_positive scale initial_delay max_delay factor timeout grows m t limit =
    let f = growing factor in
    let current = positive_delay initial_delay in
    let more : ltb 0 timeout ≡ true = ground arith in
    let p : 0 < current = ground arith in
    elim (Bool-cases (at_limit scale max_delay f timeout current)) [
      | inl full ↦
          let (fixed, top) = limit_fixed scale max_delay f timeout current full in
          let small : (timeout - (0 + current)) / current ≤ max_backoff_steps =
            quotient_bound (timeout - (0 + current)) current max_backoff_steps
              (rw top (omega (arith, limit))) in
          (
            (timeout - (0 + current)) / current,
            loop_rest scale max_delay f timeout timeout 0 current 0 more full
                ∙ ap (λ d. rest_at_once scale max_delay f timeout (0 + current) d 1) fixed
                ∙ rest_steps scale max_delay f timeout (0 + current) current 1 p small
                ∙ ap steps (omega arith),
          )
      | inr moving ↦
          let (k, computes, enough) =
            loop-Covers scale max_delay f timeout grows m limit timeout (0 + current)
              (next_delay scale max_delay f timeout current) 1
              (next_positive scale max_delay f timeout grows m current p) (omega (arith, p)) t in
          (
            k,
            loop_on scale max_delay f timeout timeout 0 current 0 more moving
                ∙ computes
                ∙ ap steps (omega arith),
          )
    ]
