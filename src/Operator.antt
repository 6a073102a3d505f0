-- ===== src/Operator.antt =====
-- cmd/main.go: the start of the operator, and which reconciler answers a request. The manager of
-- controller-runtime is a parameter; that it runs one `Reconcile` of an object at a time is its own.
pub mod Missing
use konductor.Prelude.{
  Bool, true, false, ◌||◌, String, str_eq, List, [], ◌∷◌, Action, return, ◌>>=◌, if◌then◌else◌,
}
use konductor.Api.Meta.{ObjectKey, Object}
use konductor.Api.Errors.{Error, Result, ok, err, errorf, wrap}
use konductor.Client.{Client}
use konductor.Client.Server.{Resource}
use konductor.Controllers.Outcome.{Reconciled}
use konductor.Controllers.Semaphore
use konductor.Controllers.Barrier
use konductor.Controllers.Lease
use konductor.Controllers.Gate
use konductor.Controllers.Mutex
use konductor.Controllers.RwMutex
use konductor.Controllers.Once
use konductor.Controllers.WaitGroup
use konductor.Cli.Output.{Level, debug, info, warning, failure}

-- The kinds of objects that have a reconciler.
pub data Kind : Type 0 where
  semaphore barrier lease gate mutex rw_mutex once wait_group : Kind

abbrev pub all_kinds : List Kind
all_kinds =
    semaphore ∷ (barrier ∷ (lease ∷ (gate ∷ (mutex ∷ (rw_mutex ∷ (once ∷ (wait_group ∷ [])))))))

module _ {W : Type 0} (c : Client W) where
  -- A request goes to the reconciler of its kind.
  unfoldable pub reconcile : Kind → ObjectKey → Action W Reconciled
  reconcile semaphore = Semaphore.reconcile c
  reconcile barrier = Barrier.reconcile c
  reconcile lease = Lease.reconcile c
  reconcile gate = Gate.reconcile c
  reconcile mutex = Mutex.reconcile c
  reconcile rw_mutex = RwMutex.reconcile c
  reconcile once = Once.reconcile c
  reconcile wait_group = WaitGroup.reconcile c

  -- The read of an object of a kind, without the object.
  abbrev read_of : {S T : Type 0} → Resource W S T → ObjectKey → Action W (Result (Unit {0}))
  read_of r k = do found ← r.get k; return (elim found [ err e ↦ err e | ok _ ↦ ok tt ])

  unfoldable pub read : Kind → ObjectKey → Action W (Result (Unit {0}))
  read semaphore = read_of c.semaphores
  read barrier = read_of c.barriers
  read lease = read_of c.leases
  read gate = read_of c.gates
  read mutex = read_of c.mutexes
  read rw_mutex = read_of c.rw_mutexes
  read once = read_of c.onces
  read wait_group = read_of c.wait_groups

-- `strings.ToLower` is a parameter. The CLI takes an unknown level for `info`; the operator refuses
-- it.
pub init_logger : (String → String) → String → Result Level
init_logger to_lower level =
    let name = to_lower level in
    if str_eq name "debug"
    then ok debug
    else if str_eq name "info"
    then ok info
    else if str_eq name "warn" || str_eq name "warning"
    then ok warning
    else if str_eq name "error"
    then ok failure
    else err (errorf "invalid log level: %s (valid: debug, info, warn, error)")

-- What the manager answers: to its creation, to the registration of a reconciler and of the two
-- checks, and when it stops.
pub record Manager : Type 0 where
  pub create : Result (Unit {0})
  pub set_up_with_manager : Kind → Result (Unit {0})
  pub add_healthz_check : Result (Unit {0})
  pub add_readyz_check : Result (Unit {0})
  pub start : Result (Unit {0})

abbrev pub and_then : String → Result (Unit {0}) → Result (Unit {0}) → Result (Unit {0})
and_then message (err e) rest = err (wrap message e)
and_then message (ok _) rest = rest

module _ (m : Manager) where
  -- The loop over the controllers.
  pub set_up : List Kind → Result (Unit {0}) → Result (Unit {0})
  set_up [] rest = rest
  set_up (k ∷ ks) rest =
      let others = set_up ks rest in
      and_then "Unable to create controller"
        (and_then "failed to setup %s controller" (m.set_up_with_manager k) (ok tt)) others

  -- `main`: an error is the log line of an exit with status 1.
  pub main : (String → String) → String → Result (Unit {0})
  unfolding set_up init_logger
  main to_lower log_level = elim (init_logger to_lower log_level) [
    | err e ↦ err (wrap "Failed to initialize logger: %v" e)
    | ok _ ↦ and_then "Unable to start manager" m.create (
        set_up all_kinds (
          and_then "Unable to set up health check" m.add_healthz_check (
            and_then "Unable to set up ready check" m.add_readyz_check
              (and_then "Problem running manager" m.start (ok tt)))))
  ]
