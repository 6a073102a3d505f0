-- ===== src/Sdk/Once/AtMostOnce/Refinement.antt =====
-- The processes of sdk/go/once/once.go and controllers/once_controller.go implement a function that
-- is pending, or executed by one executor at a time.
use konductor.Prelude.{
  ◌≡◌, ℕ, suc, ◌+◌, ◌≤◌, true, not, ◌&&◌, String, Option, none, some, List, [], ◌∷◌, if◌then◌else◌,
  arith,
}
use konductor.Api.Meta.{Time, ObjectKey}
use konductor.Api.Locks.{Once, OnceSpec, OnceStatus, is_unset_once}
use konductor.Client.Server.{Resource, Serves}
use konductor.Client.Race.{System, Reach, Inv}
use konductor.Client.Race.Serial.{log}
use konductor.Client.Race.Refinement.{Run, at_start, goes_on, Reach-Run}
use konductor.Sdk.Once.AtMostOnce.{Intent, execute, roll_back, reconcile, plan, plan_meta}
use konductor.Controllers.Once.{revise}
use konductor.Sdk.Once.{claim}

-- Who executed the function, and when.
pub record Execution : Type 0 where
  pub executor : String
  pub at : Option Time

-- A `Do` executes what is pending, and a rollback makes it pending again; what the
-- operator sends changes nothing.
pub data Moves : Intent → Option Execution → Option Execution → Type 0 where
  executes :
      {t : Time} {executor : String}
      → Moves (execute t executor) none (some (record { executor = executor; at = some t }))
  rolls_back : {x : Option Execution} → Moves roll_back x none
  settles : {t : Time} {x : Option Execution} → Moves (reconcile t) x x

-- What a status stands for. The operator initialises a once with no phase as not executed.
unfoldable pub view : OnceStatus → Option Execution
view s =
    if s.executed && not (is_unset_once s.phase)
    then some (record { executor = s.executor; at = s.executed_at })
    else none

executed_view :
    (t : Time) (executor : String) (o m : Once)
    → plan (execute t executor) o ≡ some m
    → (view o.status ≡ none) × (view m.status ≡ some (record { executor = executor; at = some t }))
unfolding plan claim view
executed_view t executor o m e = ground arith

rolled_back_view : (o m : Once) → plan roll_back o ≡ some m → view m.status ≡ none
unfolding plan view
rolled_back_view o m e = ground arith

reconciled_view :
    (t : Time) (o m : Once) → plan (reconcile t) o ≡ some m → view m.status ≡ view o.status
unfolding plan revise view
reconciled_view t o m e = ground arith

plan-Moves : (a : Intent) (o m : Once) → plan a o ≡ some m → Moves a (view o.status) (view m.status)
plan-Moves (execute t executor) o m e =
    let (pending, done) = executed_view t executor o m e in rw (pending, done) executes
plan-Moves roll_back o m e = rw (rolled_back_view o m e) rolls_back
plan-Moves (reconcile t) o m e = rw (reconciled_view t o m e) settles

-- How many executions and rollbacks a log has.
abbrev pub executions : List Intent → ℕ
executions [] = 0
executions (execute _ _ ∷ done) = suc (executions done)
executions (roll_back ∷ done) = executions done
executions (reconcile _ ∷ done) = executions done

abbrev pub rollbacks : List Intent → ℕ
rollbacks [] = 0
rollbacks (execute _ _ ∷ done) = rollbacks done
rollbacks (roll_back ∷ done) = suc (rollbacks done)
rollbacks (reconcile _ ∷ done) = rollbacks done

abbrev pub is_taken : Option Execution → ℕ
is_taken none = 0
is_taken (some _) = 1

-- In a run of the machine only a rollback makes room for a further execution.
step_bounded :
    (done : List Intent) (start : ℕ) {a : Intent} {x y : Option Execution}
    → executions done + start ≤ rollbacks done + is_taken x
    → Moves a x y
    → executions (a ∷ done) + start ≤ rollbacks (a ∷ done) + is_taken y
step_bounded done start h executes = omega arith
step_bounded done start {x = none} h rolls_back = omega arith
step_bounded done start {x = some _} h rolls_back = omega arith
step_bounded done start h settles = h

Run-bounded :
    {x y : Option Execution} {done : List Intent}
    → Run Moves x done y
    → executions done + is_taken x ≤ rollbacks done + is_taken y
Run-bounded at_start = omega arith
Run-bounded {x = x} (goes_on {done} run m) = step_bounded done (is_taken x) (Run-bounded run) m

module _ {W : Type 0} (r : Resource W OnceSpec OnceStatus) (stored : W → ObjectKey → Option Once)
    (k : ObjectKey) (serves : Serves r stored) where
  -- However the reads and updates of any number of processes and of the operator interleave, and as
  -- long as nobody deletes the record, the stored once is that of a run of the abstract machine, by
  -- the intents whose updates the server accepted: a `Do` executes only what is pending, a rollback
  -- makes it pending again, and an update of a Reconcile changes neither.
  pub once_refines :
      {s : System W OnceSpec OnceStatus} {o : Once} {t : System W OnceSpec OnceStatus}
      → Inv stored k s o
      → (past : Reach plan r k (λ _. true) s t)
      → (o' : Once) × (stored t.world k ≡ some o')
        × Run Moves (view o.status) (log past) (view o'.status)
  once_refines v past =
      Reach-Run plan (λ _. Moves) view plan-Moves plan_meta r stored k serves v past

  -- In any interleaving of reads and updates in which nobody deletes the record, the marks of a once
  -- that the server accepts, and one if it is executed at first, are at most the rollbacks that it
  -- accepts, and one if it is executed in the end.
  pub executions_bounded :
      {s : System W OnceSpec OnceStatus} {o : Once} {t : System W OnceSpec OnceStatus}
      → Inv stored k s o
      → (past : Reach plan r k (λ _. true) s t)
      → (o' : Once) × (stored t.world k ≡ some o')
        × (executions (log past) + is_taken (view o.status)
            ≤ rollbacks (log past) + is_taken (view o'.status))
  executions_bounded v past = let (o', now, run) = once_refines v past in (o', now, Run-bounded run)
