-- ===== src/Sdk/Mutex/Objects.antt =====
-- The calls of sdk/go/mutex/mutex.go on a mutex as an object.
use konductor.Prelude.{
  pos, ltb_ℤ, Bool, String, none, some, List, [], Action, return, ◌>>=◌, if◌then◌else◌,
}
use konductor.Api.Meta.{Duration}
use konductor.Api.Errors.{Result, ok, err, wrap, is_already_exists, is_not_found}
use konductor.Api.Locks.{Mutex, MutexPhase, is_locked}
use konductor.Sdk.Host.{Host, key, new_meta}
use konductor.Sdk.Options.{Setter, no_options, apply}

module _ {W : Type 0} (h : Host W) where
  pub get : String → Action W (Result Mutex)
  get name = do
    found ← h.client.mutexes.get (key h name)
    return (elim found [ err e ↦ err (wrap "failed to get mutex" e) | ok m ↦ ok m ])

  pub is_locked_now : String → Action W (Result Bool)
  unfolding get
  is_locked_now name = do
    found ← get name
    return (elim found [ err e ↦ err e | ok m ↦ ok (is_locked m.status.phase) ])

  pub list : Action W (Result (List Mutex))
  list = do
    found ← h.client.mutexes.list h.namespace []
    return (elim found [ err e ↦ err (wrap "failed to list mutexes" e) | ok ms ↦ ok ms ])

  -- The object that `Create` sends; the server fills the rest of its metadata in.
  abbrev pub new_mutex : String → Duration → Mutex
  new_mutex name ttl = record {
    meta = new_meta h name [] [];
    spec = record { ttl = if ltb_ℤ (pos 0) ttl then some ttl else none };
    status = record { holder = ""; locked_at = none; expires_at = none; phase = MutexPhase.unset };
  }

  pub create : String → List Setter → Action W (Result (Unit {0}))
  create name opts = do
    made ← h.client.mutexes.create (new_mutex name (apply opts no_options).ttl)
    return (elim made [ err e ↦ if is_already_exists e then ok tt else err e | ok _ ↦ ok tt ])

  pub delete : String → Action W (Result (Unit {0}))
  delete name = do
    gone ← h.client.mutexes.delete (key h name)
    return (elim gone [ err e ↦ if is_not_found e then ok tt else err e | ok _ ↦ ok tt ])

  pub update : Mutex → Action W (Result (Unit {0}))
  update m = do
    done ← h.client.mutexes.update m
    return (elim done [ err e ↦ err (wrap "failed to update mutex" e) | ok _ ↦ ok tt ])
