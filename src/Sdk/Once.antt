-- ===== src/Sdk/Once.antt =====
-- sdk/go/once/once.go
pub mod AtMostOnce
pub mod Attempts
pub mod Progress
use konductor.Prelude.{
  ℕ, zero, suc, ◌*◌, ℤ, pos, ltb_ℤ, Bool, true, false, String, Option, none, some, List, [], Action,
  return, ◌>>=◌, if◌then◌else◌,
}
use konductor.Api.Meta.{Time, Duration, millisecond}
use konductor.Api.Errors.{
  Error, Result, ok, err, errorf, wrap, is_conflict, is_already_exists, is_not_found,
}
use konductor.Api.Locks.{Once, OncePhase}
use konductor.Client.{now}
use konductor.Sdk.Host.{Host, resolve_holder, key, new_meta}
use konductor.Sdk.Options.{Setter, no_options, apply}

-- The record as `Do` marks it before the function runs, and as it rolls it back if that fails.
abbrev pub mark : Time → String → Once → Once
mark t executor once = record once {
  status = record {
    executed = true;
    executor = executor;
    executed_at = some t;
    phase = OncePhase.executed;
  };
}

-- From the `Get` to the `Update` of `Do`: nothing is sent where the record is marked already.
unfoldable pub claim : Time → String → Once → Option Once
claim t executor once = if once.status.executed then none else some (mark t executor once)

abbrev pub unmark : Once → Once
unmark once = record once {
  status = record {
    executed = false;
    executor = "";
    executed_at = none;
    phase = OncePhase.pending;
  };
}

-- Whether this call executed the function, and the error.
pub record Outcome : Type 0 where
  pub executed : Bool
  pub error : Option Error

module _ {W : Type 0} (h : Host W) where
  -- The rollback loop, with its retries left and its next delay: the text that comes before the
  -- error of the function.
  unfoldable pub rollback : String → ℕ → ℕ → Action W String
  rollback name zero backoff = return "execution failed"
  rollback name (suc n) backoff = do
    found ← h.client.onces.get (key h name)
    elim found [
      | err e ↦ return "execution failed and rollback get failed"
      | ok once ↦ do
        written ← h.client.onces.status_update (unmark once)
        elim written [
          | err e ↦
              if is_conflict e
              then (do _ ← h.pause backoff; rollback name n (backoff * 2))
              else return "execution failed and rollback failed"
          | ok _ ↦ return "execution failed"
        ]
    ]

  -- The function, once the record is marked.
  unfoldable pub run_marked : String → Action W (Result (Unit {0})) → Action W Outcome
  unfolding rollback
  run_marked name fn = do
    done ← fn
    elim done [
      | ok _ ↦ return (record { executed = true; error = none })
      | err e ↦ do
        text ← rollback name 3 (100 * millisecond)
        return (record { executed = true; error = some (wrap text e) })
    ]

  abbrev pub not_run : Error → Outcome
  not_run e = record { executed = false; error = some e }

  -- The retry loop, with its retries left and its next delay.
  unfoldable pub attempts :
      String → String → Action W (Result (Unit {0})) → ℕ → ℕ → Action W Outcome
  unfolding run_marked
  attempts name executor fn zero backoff =
      return (not_run (errorf "failed to acquire execution after retries"))
  attempts name executor fn (suc n) backoff = do
    found ← h.client.onces.get (key h name)
    elim found [
      | err e ↦ return (
          not_run
            (wrap (if is_not_found e then "once resource not found" else "failed to get once") e))
      | ok once ↦ do
        t ← now h.client
        elim (claim t executor once) [
          | none ↦ return (record { executed = false; error = none })
          | some marked ↦ do
            written ← h.client.onces.status_update marked
            elim written [
              | err e ↦
                  if is_conflict e
                  then (do _ ← h.pause backoff; attempts name executor fn n (backoff * 2))
                  else return (
                      not_run (
                        wrap
                          (if is_not_found e
                            then "once resource was deleted"
                            else "failed to update once status")
                          e))
              | ok _ ↦ run_marked name fn
            ]
        ]
    ]

  -- `Do`
  unfoldable pub do_once : String → Action W (Result (Unit {0})) → List Setter → Action W Outcome
  unfolding attempts
  do_once name fn opts = do
    executor ← resolve_holder h (apply opts no_options).holder
    attempts name executor fn 5 (100 * millisecond)

  pub get : String → Action W (Result Once)
  get name = do
    found ← h.client.onces.get (key h name)
    return (elim found [ err e ↦ err (wrap "failed to get once" e) | ok once ↦ ok once ])

  pub is_executed_now : String → Action W (Result Bool)
  unfolding get
  is_executed_now name = do
    found ← get name
    return (elim found [ err e ↦ err e | ok once ↦ ok once.status.executed ])

  -- The object that `Create` sends.
  abbrev pub new_once : String → Duration → Once
  new_once name ttl = record {
    meta = new_meta h name [] [];
    spec = record { ttl = if ltb_ℤ (pos 0) ttl then some ttl else none };
    status = record {
      executed = false;
      executor = "";
      executed_at = none;
      phase = OncePhase.unset;
    };
  }

  pub create : String → List Setter → Action W (Result (Unit {0}))
  create name opts = do
    made ← h.client.onces.create (new_once name (apply opts no_options).ttl)
    return (elim made [
      | err e ↦ if is_already_exists e then ok tt else err (wrap "failed to create once" e)
      | ok _ ↦ ok tt
    ])

  pub delete : String → Action W (Result (Unit {0}))
  delete name = do
    gone ← h.client.onces.delete (key h name)
    return (elim gone [ err e ↦ if is_not_found e then ok tt else err e | ok _ ↦ ok tt ])

  pub list : Action W (Result (List Once))
  list = do
    found ← h.client.onces.list h.namespace []
    return (elim found [ err e ↦ err (wrap "failed to list onces" e) | ok onces ↦ ok onces ])
