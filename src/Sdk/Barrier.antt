-- ===== src/Sdk/Barrier.antt =====
-- sdk/go/barrier/barrier.go
pub mod Arrivals
pub mod Opening
pub mod Waiting
use konductor.Prelude.{
  ◌*◌, ℤ, pos, pos_part, ltb_ℤ, Bool, true, false, String, str_append, none, some, List, [], ◌∷◌,
  Action, return, ◌>>=◌, if◌then◌else◌,
}
use konductor.Api.Meta.{Duration, second}
use konductor.Api.Errors.{Error, Result, ok, err, errorf, wrap}
use konductor.Api.Counters.{
  Barrier, BarrierStatus, BarrierPhase, Arrival, ArrivalPhase, same_barrier_phase,
}
use konductor.Sdk.Host.{Host, resolve_holder, key, new_meta}
use konductor.Sdk.Options.{Options, Setter, no_options, apply}
use konductor.Sdk.Wait.{WaitConfig, wait_for_condition}
use konductor.Sdk.Client.{child_name}
use konductor.Sdk.Semaphore.{positive}

abbrev pub wrap_error : String → Error → Error
wrap_error operation e = wrap (str_append (str_append "failed to " operation) " barrier %s") e

abbrev pub has_failed : Barrier → Bool
has_failed b = same_barrier_phase b.status.phase BarrierPhase.failed

abbrev pub is_settled : Barrier → Bool
is_settled b = elim b.status.phase [
  | BarrierPhase.opened ↦ true
  | BarrierPhase.failed ↦ true
  | BarrierPhase.unset ↦ false
  | BarrierPhase.waiting ↦ false
]

abbrev pub wait_config : Duration → WaitConfig
wait_config timeout = record {
  initial_delay = 1 * second;
  max_delay = 5 * second;
  factor = 15;
  jitter = 1;
  timeout = if ltb_ℤ (pos 0) timeout then pos_part timeout else 30 * second;
  operator_delay = 0;
}

module _ {W : Type 0} (h : Host W) where
  -- `Wait` from its final read.
  unfoldable pub conclude : String → Action W (Result (Unit {0}))
  conclude name = do
    found ← h.client.barriers.get (key h name)
    return (elim found [
      | err e ↦ err (wrap_error "get" e)
      | ok b ↦ if has_failed b then err (errorf "barrier %s failed") else ok tt
    ])

  unfoldable pub wait : String → List Setter → Action W (Result (Unit {0}))
  wait name opts = do
    let options = apply opts no_options
    waited ←
        wait_for_condition h h.client.barriers (key h name) is_settled
          (some (wait_config options.timeout))
    elim waited [ err e ↦ return (err (wrap_error "wait" e)) | ok _ ↦ conclude name ]

  abbrev pub new_arrival : Barrier → String → String → Arrival
  new_arrival b name holder = record {
    meta =
        new_meta h (child_name name holder) (("barrier", name) ∷ [])
          ((record { kind = "Barrier"; name = b.meta.name; uid = b.meta.uid }) ∷ []);
    spec = record { barrier = name; holder = holder };
    status = record { phase = ArrivalPhase.unset; arrived_at = none };
  }

  unfoldable pub arrive : String → List Setter → Action W (Result (Unit {0}))
  arrive name opts = do
    holder ← resolve_holder h (apply opts no_options).holder
    found ← h.client.barriers.get (key h name)
    elim found [
      | err e ↦ return (err (wrap_error "get" e))
      | ok b ↦ do
        made ← h.client.arrivals.create (new_arrival b name holder)
        return (elim made [ err e ↦ err (wrap "failed to create arrival" e) | ok _ ↦ ok tt ])
    ]

  pub with_arrival :
      String → Action W (Result (Unit {0})) → List Setter → Action W (Result (Unit {0}))
  with_arrival name fn opts = do
    done ← fn
    elim done [ err e ↦ return (err e) | ok _ ↦ arrive name opts ]

  unfoldable pub wait_and_arrive :
      String → String → Action W (Result (Unit {0})) → List Setter → Action W (Result (Unit {0}))
  wait_and_arrive wait_barrier arrive_barrier fn opts = do
    waited ← wait wait_barrier opts
    elim waited [
      | err e ↦ return (err (wrap "failed to wait for barrier %s" e))
      | ok _ ↦ do
        done ← fn
        elim done [
          | err e ↦ return (err e)
          | ok _ ↦ do
            arrived ← arrive arrive_barrier opts
            return (elim arrived [
              | err e ↦ err (wrap "failed to arrive at barrier %s" e)
              | ok _ ↦ ok tt
            ])
        ]
    ]

  pub list : Action W (Result (List Barrier))
  list = do
    found ← h.client.barriers.list h.namespace []
    return (elim found [ err e ↦ err (wrap "failed to list barriers" e) | ok bs ↦ ok bs ])

  unfoldable pub get : String → Action W (Result Barrier)
  get name = do
    found ← h.client.barriers.get (key h name)
    return (elim found [ err e ↦ err (wrap_error "get" e) | ok b ↦ ok b ])

  pub get_status : String → Action W (Result BarrierStatus)
  get_status name = do found ← get name; return (elim found [ err e ↦ err e | ok b ↦ ok b.status ])

  abbrev pub new_barrier : String → ℤ → Options → Barrier
  new_barrier name expected options = record {
    meta = new_meta h name [] [];
    spec = record {
      expected = expected;
      timeout = positive options.timeout;
      quorum = if ltb_ℤ (pos 0) options.quorum then some options.quorum else none;
    };
    status = record {
      arrived = pos 0;
      phase = BarrierPhase.unset;
      arrivals = [];
      opened_at = none;
    };
  }

  pub create : String → ℤ → List Setter → Action W (Result (Unit {0}))
  create name expected opts = do
    made ← h.client.barriers.create (new_barrier name expected (apply opts no_options))
    return (elim made [ err e ↦ err (wrap_error "create" e) | ok _ ↦ ok tt ])

  pub delete : String → Action W (Result (Unit {0}))
  delete name = do
    gone ← h.client.barriers.delete (key h name)
    return (elim gone [ err e ↦ err (wrap_error "delete" e) | ok _ ↦ ok tt ])

  pub update : Barrier → Action W (Result (Unit {0}))
  update b = do
    done ← h.client.barriers.update b
    return (elim done [ err e ↦ err (wrap_error "update" e) | ok _ ↦ ok tt ])
