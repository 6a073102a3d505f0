-- ===== src/Sdk/Gate/Conditions.antt =====
-- What `WaitForConditions` of sdk/go/gate/gate.go promises.
use konductor.Prelude.{
  ◌≡◌, refl, inl, inr, ℕ, zero, suc, ◌+◌, ◌*◌, ◌≤◌, ◌<◌, pos, pos_part, neg_part, ◌+ℤ◌, ◌≤ℤ◌,
  is_none, +ℤ_parts, -ℤ_parts, true, false, Bool-cases, String, some, List, [], ◌∷◌, All, arith,
}
use konductor.Api.Meta.{Time, Duration, ObjectKey, second, sub}
use konductor.Api.Errors.{Result-cases, ok}
use konductor.Api.Gates.{Gate, GateConditionStatus}
use konductor.Sdk.Host.{Host, key}
use konductor.Sdk.Options.{Setter, no_options, apply}
use konductor.Sdk.Gate.{all_met, shorter, get_conditions, is_late, rounds, wait_for_conditions}
use konductor.Sdk.Gate.Statuses.{LastIsMet, all_met-All}

module _ {W : Type 0} (h : Host W) where
  -- The last read of a call that succeeds: every condition that it names is met.
  pub record Met (name : String) (names : List String) (last : W) : Type 0 where
    pub gate : Gate
    pub read_at : W
    pub read : h.client.gates.get (key h name) read_at ≡ (ok gate, last)
    pub met : All (LastIsMet gate.status.condition_statuses) names

  conditions_read :
      (name : String) (w w' : W) (conditions : List GateConditionStatus)
      → get_conditions h name w ≡ (ok conditions, w')
      → (g : Gate) × (h.client.gates.get (key h name) w ≡ (ok g, w'))
        × (g.status.condition_statuses ≡ conditions)
  unfolding get_conditions
  conditions_read name w w' conditions e =
      elim (Result-cases (h.client.gates.get (key h name) w).0) [
        | inl (x, missing) ↦ absurd (ground arith)
        | inr (g, found) ↦ (g, ground arith, ground arith)
      ]

  -- What the external calls document of time: no call goes back in time, a sleep lasts at least as
  -- long as it is asked to, and a delay does not shrink when it is scaled by one and a half.
  pub record Ticks : Type 0 where
    pub read_later :
        (k : ObjectKey) (w : W) → h.client.clock w ≤ℤ h.client.clock (h.client.gates.get k w).1
    pub sleep_later :
        (d : ℕ) (w : W)
        → (h.sleep d w).0 ≡ ok tt
        → h.client.clock w +ℤ pos d ≤ℤ h.client.clock (h.sleep d w).1
    pub scaled : (d : ℕ) → d ≤ h.scale 15 d

  late :
      (start t : Time) (d : ℕ)
      → pos_part start + suc d + neg_part t < pos_part t + neg_part start
      → is_late h start (pos (suc d)) t ≡ true
  unfolding is_late sub
  late start t d after = ground (arith, -ℤ_parts t start)

  still_long : (d : ℕ) → Ticks → second ≤ d → second ≤ shorter (h.scale 15 d) (10 * second)
  still_long d ticks long = ground (arith, ticks.scaled d)

  conditions_later :
      (ticks : Ticks) (name : String) (w : W)
      → h.client.clock w ≤ℤ h.client.clock (get_conditions h name w).1
  unfolding get_conditions
  conditions_later ticks name w = ticks.read_later (key h name) w

  -- One round ends, if the rounds after its sleep do.
  one_round :
      (name : String) (names : List String) (start : Time) (timeout : Duration) (n delay : ℕ)
      (w : W)
      → let v = (get_conditions h name w).1 in
        (is_late h start timeout (h.client.clock v) ≡ false
          → (h.sleep delay v).0 ≡ ok tt
          → is_none
              (rounds h name names start timeout n
                (shorter (h.scale 15 delay) (10 * second))
                (h.sleep delay v).1).0
            ≡ false)
        → is_none (rounds h name names start timeout (suc n) delay w).0 ≡ false
  unfolding rounds
  one_round name names start timeout n delay w next =
      let got = get_conditions h name w in
      elim (Result-cases got.0) [
        | inl (x, failed) ↦ ground arith
        | inr (conditions, found) ↦ elim (Bool-cases (all_met conditions names)) [
          | inl met ↦ ground arith
          | inr unmet ↦ elim (Bool-cases (is_late h start timeout (h.client.clock got.1))) [
            | inl over ↦ ground arith
            | inr early ↦ elim (Result-cases (h.sleep delay got.1).0) [
              | inl (x, cancelled) ↦ ground arith
              | inr (_, slept) ↦ ground (arith, next early slept)
            ]
          ]
        ]
      ]

  -- Once the clock has passed the timeout less a second for each round that is left, the loop ends.
  rounds_end :
      (ticks : Ticks) (name : String) (names : List String) (start : Time) (d n delay : ℕ) (w : W)
      → second ≤ delay
      → pos_part start + suc d + neg_part (h.client.clock w)
        < pos_part (h.client.clock w) + neg_part start + n * second
      → is_none (rounds h name names start (pos (suc d)) (suc n) delay w).0 ≡ false
  rounds_end ticks name names start d zero delay w long soon =
      let v = (get_conditions h name w).1 in
      let later = conditions_later ticks name w in
      one_round name names start (pos (suc d)) zero delay w
        (λ early slept. let over = late start (h.client.clock v) d (omega arith) in absurd (cc))
  rounds_end ticks name names start d (suc n) delay w long soon =
      let v = (get_conditions h name w).1 in
      let later = conditions_later ticks name w in
      one_round name names start (pos (suc d)) (suc n) delay w (λ early slept.
        let t = h.client.clock v in
        let sum = +ℤ_parts t (pos delay) in
        let after = ticks.sleep_later delay v slept in
        rounds_end ticks name names start d n _ (h.sleep delay v).1 (still_long delay ticks long)
          (omega arith))

  -- With a positive timeout, `WaitForConditions` ends: one round more than a number of seconds that is
  -- longer than the timeout is enough, so two more than the timeout has whole seconds, if no call
  -- goes back in time, a sleep lasts as long as it is asked to, and scaling by one and a half shrinks
  -- no delay.
  pub wait_for_conditions_ends :
      (name : String) (names : List String) (opts : List Setter) (d n : ℕ) (w : W)
      → Ticks
      → (apply opts no_options).timeout ≡ pos (suc d)
      → suc d < n * second
      → is_none (wait_for_conditions h (suc n) name names opts w).0 ≡ false
  unfolding wait_for_conditions
  wait_for_conditions_ends name [] opts d n w ticks limit enough = refl
  wait_for_conditions_ends name (first ∷ others) opts d n w ticks limit enough = rw limit (
      rounds_end ticks name (first ∷ others) (h.client.clock w) d n (1 * second) w (omega arith)
        (omega arith))

  rounds-Met :
      (name : String) (names : List String) (start : Time) (timeout : Duration) (n delay : ℕ)
      (w w' : W)
      → rounds h name names start timeout n delay w ≡ (some (ok tt), w')
      → Met name names w'
  unfolding rounds
  rounds-Met name names start timeout zero delay w w' e = absurd (ground arith)
  rounds-Met name names start timeout (suc n) delay w w' e =
      let got = get_conditions h name w in
      elim (Result-cases got.0) [
        | inl (x, failed) ↦ absurd (ground arith)
        | inr (conditions, found) ↦ elim (Bool-cases (all_met conditions names)) [
          | inl met ↦
              let (g, read, statuses) = conditions_read name w w' conditions (ground arith) in
              record {
                gate = g;
                read_at = w;
                read = read;
                met = all_met-All g.status.condition_statuses names (rw statuses met);
              }
          | inr unmet ↦ elim (Bool-cases (is_late h start timeout (h.client.clock got.1))) [
            | inl over ↦ absurd (ground arith)
            | inr early ↦ elim (Result-cases (h.sleep delay got.1).0) [
              | inl (x, cancelled) ↦ absurd (ground arith)
              | inr (_, slept) ↦
                  rounds-Met name names start timeout n (shorter (h.scale 15 delay) (10 * second))
                    (h.sleep delay got.1).1 w' (ground arith)
            ]
          ]
        ]
      ]

  -- If `WaitForConditions` succeeds for a list of names that is not empty, its last call read the
  -- gate with a status of each of them, and the last status of each name says that it is met.
  pub wait_for_conditions-Met :
      (fuel : ℕ) (name first : String) (others : List String) (opts : List Setter) (w w' : W)
      → wait_for_conditions h fuel name (first ∷ others) opts w ≡ (some (ok tt), w')
      → Met name (first ∷ others) w'
  unfolding wait_for_conditions
  wait_for_conditions-Met fuel name first others opts w w' e =
      rounds-Met name (first ∷ others) (h.client.clock w) _ fuel (1 * second) w w' e
