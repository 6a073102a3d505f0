-- ===== src/Sdk/Lease.antt =====
-- sdk/go/lease/lease.go
pub mod Acquisition
use konductor.Prelude.{
  ◌*◌, ℤ, pos, pos_part, ltb_ℤ, Bool, true, false, ◌||◌, String, str_append, Option, none, some,
  List, [], ◌∷◌, Action, return, ◌>>=◌, if◌then◌else◌,
}
use konductor.Api.Meta.{Duration, ObjectKey, second, minute}
use konductor.Api.Errors.{Error, Result, ok, err, errorf, wrap}
use konductor.Api.Leases.{
  Lease, LeasePhase, LeaseRequest, LeaseRequestPhase, is_available, is_granted_request,
  is_denied_request,
}
use konductor.Sdk.Host.{Host, resolve_holder, key, new_meta}
use konductor.Sdk.Options.{Options, Setter, no_options, apply, with_timeout}
use konductor.Sdk.Wait.{WaitConfig, wait_for_condition, retry_with_backoff}

-- `Lease` of the SDK; its context, which `Release` cancels, is left out.
pub record Handle : Type 0 where
  pub name : String
  pub request_id : String
  pub holder : String

-- `fmt.Sprintf("%s-%s", name, holder)`
abbrev pub request_id_of : String → String → String
request_id_of name holder = str_append (str_append name "-") holder

abbrev pub is_decided : LeaseRequest → Bool
is_decided r = is_granted_request r.status.phase || is_denied_request r.status.phase

abbrev pub decision_config : Duration → WaitConfig
decision_config timeout = record {
  initial_delay = 1 * second;
  max_delay = 5 * second;
  factor = 15;
  jitter = 1;
  timeout = if ltb_ℤ (pos 0) timeout then pos_part timeout else 30 * second;
  operator_delay = 0;
}

module _ {W : Type 0} (h : Host W) where
  -- The request that `Acquire` creates.
  abbrev pub new_request : String → String → ℤ → LeaseRequest
  new_request name holder priority = record {
    meta = new_meta h (request_id_of name holder) (("lease", name) ∷ []) [];
    spec = record {
      lease = name;
      holder = holder;
      priority = if ltb_ℤ (pos 0) priority then some priority else none;
      ttl = none;
    };
    status = record { phase = LeaseRequestPhase.unset; requested_at = none };
  }

  -- The method `Release`.
  unfoldable pub release : Handle → Action W (Result (Unit {0}))
  release l = retry_with_backoff h (h.client.lease_requests.delete (key h l.request_id)) none

  -- The clean-up before an error is returned.
  unfoldable pub give_up : ObjectKey → Error → Error → Action W (Result Handle)
  give_up k e uncleaned = do
    gone ← h.client.lease_requests.delete k
    return (elim gone [ err x ↦ err uncleaned | ok _ ↦ err e ])

  -- `Acquire` after the wait for the decision.
  unfoldable pub conclude : String → String → Action W (Result Handle)
  conclude name holder = do
    let k = key h (request_id_of name holder)
    found ← h.client.lease_requests.get k
    elim found [
      | err e ↦ return (err e)
      | ok r ↦
          if is_denied_request r.status.phase
          then give_up k (errorf "lease request denied for %s")
              (errorf "lease request denied for %s (cleanup failed: %v)")
          else return
              (ok (record { name = name; request_id = request_id_of name holder; holder = holder }))
    ]

  unfoldable pub acquire : String → List Setter → Action W (Result Handle)
  acquire name opts = do
    let options = apply opts no_options
    holder ← resolve_holder h options.holder
    let k = key h (request_id_of name holder)
    made ← h.client.lease_requests.create (new_request name holder options.priority)
    elim made [
      | err e ↦ return (err (wrap "failed to create lease request" e))
      | ok _ ↦ do
        decided ←
            wait_for_condition h h.client.lease_requests k is_decided
              (some (decision_config options.timeout))
        elim decided [ err e ↦ give_up k e (wrap "cleanup failed" e) | ok _ ↦ conclude name holder ]
    ]

  pub try_acquire : String → List Setter → Action W (Result Handle)
  try_acquire name opts = acquire name (with_timeout (pos second) ∷ opts)

  -- `With`: the error of `fn` comes before that of the deferred `Release`.
  pub with_lease :
      String → Action W (Result (Unit {0})) → List Setter → Action W (Result (Unit {0}))
  with_lease name fn opts = do
    acquired ← acquire name opts
    elim acquired [
      | err e ↦ return (err e)
      | ok l ↦ do
        done ← fn
        released ← release l
        return (elim done [
          | err e ↦ err e
          | ok _ ↦ elim released [ err e ↦ err (wrap "failed to release lease" e) | ok _ ↦ ok tt ]
        ])
    ]

  pub list : Action W (Result (List Lease))
  list = do
    found ← h.client.leases.list h.namespace []
    return (elim found [ err e ↦ err (wrap "failed to list leases" e) | ok ls ↦ ok ls ])

  pub get : String → Action W (Result Lease)
  get name = do
    found ← h.client.leases.get (key h name)
    return (elim found [ err e ↦ err (wrap "failed to get lease" e) | ok l ↦ ok l ])

  pub is_available_now : String → Action W (Result Bool)
  unfolding get
  is_available_now name = do
    found ← get name
    return (elim found [ err e ↦ err e | ok l ↦ ok (is_available l.status.phase) ])

  -- The object that `Create` sends.
  abbrev pub new_lease : String → Duration → Lease
  new_lease name ttl = record {
    meta = new_meta h name [] [];
    spec = record {
      ttl = some (if ltb_ℤ (pos 0) ttl then ttl else pos (10 * minute));
      priority = none;
    };
    status = record {
      holder = "";
      acquired_at = none;
      expires_at = none;
      phase = LeasePhase.unset;
      renew_count = pos 0;
    };
  }

  pub create : String → List Setter → Action W (Result (Unit {0}))
  create name opts = do
    made ← h.client.leases.create (new_lease name (apply opts no_options).ttl)
    return (elim made [ err e ↦ err (wrap "failed to create lease" e) | ok _ ↦ ok tt ])

  pub delete : String → Action W (Result (Unit {0}))
  delete name = do
    gone ← h.client.leases.delete (key h name)
    return (elim gone [ err e ↦ err (wrap "failed to delete lease" e) | ok _ ↦ ok tt ])

  pub update : Lease → Action W (Result (Unit {0}))
  update l = do
    done ← h.client.leases.update l
    return (elim done [ err e ↦ err (wrap "failed to update lease" e) | ok _ ↦ ok tt ])
