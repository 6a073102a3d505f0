-- ===== src/Sdk/Gate.antt =====
-- sdk/go/gate/gate.go
pub mod Closing
pub mod Conditions
pub mod Refusal
pub mod Statuses
use konductor.Prelude.{
  ℕ, zero, suc, ◌*◌, ℤ, pos, pos_part, ltb, ltb_ℤ, Bool, true, false, ◌&&◌, String, str_eq, Option,
  none, some, List, [], ◌∷◌, Action, return, ◌>>=◌, if◌then◌else◌,
}
use konductor.Api.Meta.{Time, Duration, second, sub}
use konductor.Api.Errors.{Error, Result, ok, err, errorf, wrap}
use konductor.Api.Gates.{
  Gate, GateStatus, GateConditionStatus, GatePhase, is_opened_gate, is_failed_gate, is_waiting_gate,
}
use konductor.Client.{now}
use konductor.Sdk.Host.{Host, key, new_meta}
use konductor.Sdk.Options.{Setter, no_options, apply}
use konductor.Sdk.Wait.{WaitConfig, wait_for_condition, retry_with_backoff}

abbrev pub is_settled : Gate → Bool
is_settled g = elim g.status.phase [
  | GatePhase.opened ↦ true
  | GatePhase.failed ↦ true
  | GatePhase.unset ↦ false
  | GatePhase.waiting ↦ false
]

abbrev pub wait_config : Duration → WaitConfig
wait_config timeout = record {
  initial_delay = 2 * second;
  max_delay = 10 * second;
  factor = 15;
  jitter = 1;
  timeout = if ltb_ℤ (pos 0) timeout then pos_part timeout else 30 * second;
  operator_delay = 0;
}

-- `conditionMap`, as its lookup: of two statuses of one name the later one is kept.
unfoldable pub condition_map : List GateConditionStatus → String → Option Bool
condition_map [] name = none
condition_map (c ∷ cs) name =
    let rest = condition_map cs name in
    elim rest [ some met ↦ some met | none ↦ if str_eq c.name name then some c.met else none ]

abbrev pub is_met : List GateConditionStatus → String → Bool
is_met conditions name = elim (condition_map conditions name) [ some met ↦ met | none ↦ false ]

-- `allMet`
unfoldable pub all_met : List GateConditionStatus → List String → Bool
all_met conditions [] = true
all_met conditions (name ∷ names) = is_met conditions name && all_met conditions names

-- `min(a, b)` on durations
abbrev pub shorter : ℕ → ℕ → ℕ
shorter a b = if ltb b a then b else a

-- The gate in another phase, as `Open` and `Close` write it.
abbrev pub set_phase : GatePhase → Gate → Gate
set_phase p g = record g { status = record g.status { phase = p } }

module _ {W : Type 0} (h : Host W) where
  -- `Wait` from its final read.
  unfoldable pub conclude : String → Action W (Result (Unit {0}))
  conclude name = do
    found ← h.client.gates.get (key h name)
    return (elim found [
      | err e ↦ err (wrap "failed to get gate %s" e)
      | ok g ↦ if is_failed_gate g.status.phase then err (errorf "gate %s failed") else ok tt
    ])

  unfoldable pub wait : String → List Setter → Action W (Result (Unit {0}))
  wait name opts = do
    let options = apply opts no_options
    waited ←
        wait_for_condition h h.client.gates (key h name) is_settled
          (some (wait_config options.timeout))
    elim waited [ err e ↦ return (err e) | ok _ ↦ conclude name ]

  unfoldable pub check : String → Action W (Result Bool)
  check name = do
    found ← h.client.gates.get (key h name)
    return (elim found [
      | err e ↦ err (wrap "failed to get gate %s" e)
      | ok g ↦ ok (is_opened_gate g.status.phase)
    ])

  unfoldable pub get_conditions : String → Action W (Result (List GateConditionStatus))
  get_conditions name = do
    found ← h.client.gates.get (key h name)
    return (elim found [
      | err e ↦ err (wrap "failed to get gate %s" e)
      | ok g ↦ ok g.status.condition_statuses
    ])

  -- `options.Timeout > 0 && time.Since(startTime) > options.Timeout`
  unfoldable pub is_late : Time → Duration → Time → Bool
  is_late start timeout t = ltb_ℤ (pos 0) timeout && ltb_ℤ timeout (sub t start)

  -- The loop of `WaitForConditions`, with the rounds that it may make: no result if it needs more.
  unfoldable pub rounds :
      String → List String → Time → Duration → ℕ → ℕ → Action W (Option (Result (Unit {0})))
  rounds name names start timeout zero delay = return none
  rounds name names start timeout (suc n) delay = do
    found ← get_conditions name
    elim found [
      | err e ↦ return (some (err (wrap "failed to get conditions for gate %s" e)))
      | ok conditions ↦ if all_met conditions names then return (some (ok tt)) else (do
        t ← now h.client
        if is_late start timeout t
            then return (some (err (errorf "timeout waiting for conditions in gate %s")))
            else (do
              slept ← h.sleep delay
              elim slept [
                | err e ↦ return (some (err e))
                | ok _ ↦
                    rounds name names start timeout n (shorter (h.scale 15 delay) (10 * second))
              ]))
    ]

  unfoldable pub wait_for_conditions :
      ℕ → String → List String → List Setter → Action W (Option (Result (Unit {0})))
  wait_for_conditions fuel name [] opts = return (some (ok tt))
  wait_for_conditions fuel name (first ∷ others) opts = do
    start ← now h.client
    rounds name (first ∷ others) start (apply opts no_options).timeout fuel (1 * second)

  pub with_gate : String → Action W (Result (Unit {0})) → List Setter → Action W (Result (Unit {0}))
  with_gate name fn opts = do
    waited ← wait name opts
    elim waited [ err e ↦ return (err e) | ok _ ↦ fn ]

  pub list : Action W (Result (List Gate))
  list = do
    found ← h.client.gates.list h.namespace []
    return (elim found [ err e ↦ err (wrap "failed to list gates" e) | ok gs ↦ ok gs ])

  unfoldable pub get : String → Action W (Result Gate)
  get name = do
    found ← h.client.gates.get (key h name)
    return (elim found [ err e ↦ err (wrap "failed to get gate %s" e) | ok g ↦ ok g ])

  pub get_status : String → Action W (Result GateStatus)
  get_status name = do found ← get name; return (elim found [ err e ↦ err e | ok g ↦ ok g.status ])

  abbrev pub new_gate : String → Gate
  new_gate name = record {
    meta = new_meta h name [] [];
    spec = record { conditions = []; timeout = none };
    status = record { phase = GatePhase.unset; condition_statuses = []; opened_at = none };
  }

  pub create : String → Action W (Result (Unit {0}))
  create name = h.client.gates.create (new_gate name)

  pub delete : String → Action W (Result (Unit {0}))
  delete name = h.client.gates.delete (key h name)

  pub update : Gate → Action W (Result (Unit {0}))
  update g = h.client.gates.update g

  -- The closure that `Open` and `Close` retry.
  unfoldable pub write_phase : GatePhase → String → Action W (Result (Unit {0}))
  write_phase p name = do
    found ← h.client.gates.get (key h name)
    elim found [ err e ↦ return (err e) | ok g ↦ h.client.gates.status_update (set_phase p g) ]

  unfoldable pub open_gate : String → Action W (Result (Unit {0}))
  open_gate name = do
    written ← retry_with_backoff h (write_phase GatePhase.opened name) none
    elim written [
      | err e ↦ return (err e)
      | ok _ ↦
          wait_for_condition h h.client.gates (key h name) (λ g. is_opened_gate g.status.phase) none
    ]

  unfoldable pub close_gate : String → Action W (Result (Unit {0}))
  close_gate name = do
    written ← retry_with_backoff h (write_phase GatePhase.waiting name) none
    elim written [
      | err e ↦ return (err e)
      | ok _ ↦
          wait_for_condition h h.client.gates (key h name) (λ g. is_waiting_gate g.status.phase)
            none
    ]
