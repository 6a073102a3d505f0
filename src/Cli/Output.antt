-- ===== src/Cli/Output.antt =====
-- What the commands of cli share: the lines that they log, the texts of the phases, and the globals
-- of cli/main.go with `validateHolder` of cli/lease.go.
use konductor.Prelude.{
  ℤ, pos, ltb_ℤ, Bool, String, is_blank, Option, none, some, List, [], ◌∷◌, ◌++◌, length, Action,
  return, if◌then◌else◌,
}
use konductor.Api.Meta.{Time, Duration}
use konductor.Api.Errors.{Error, Result, ok, err, errorf, panicked}
use konductor.Api.Locks.{MutexPhase, RwMutexPhase, OncePhase}
use konductor.Api.Counters.{SemaphorePhase, BarrierPhase, WaitGroupPhase}
use konductor.Api.Leases.{LeasePhase}
use konductor.Api.Gates.{GatePhase}
use konductor.Client.{Client}
use konductor.Sdk.Host.{Host}
use konductor.Sdk.Options.{Setter}
use konductor.Sdk.Client.{new_from_client}

-- `zap.Field`
pub data Field : Type 0 where
  words : String → Field
  number : ℤ → Field
  lasting : Duration → Field
  truth : Bool → Field
  problem : Error → Field

pub data Level : Type 0 where
  debug info warning failure : Level

pub record Line : Type 0 where
  pub level : Level
  pub message : String
  pub fields : List (String × Field)

-- The lines that a command logs, and its error.
pub record Outcome : Type 0 where
  pub lines : List Line
  pub result : Result (Unit {0})

abbrev pub info_line : String → List (String × Field) → Line
info_line message fields = record { level = info; message = message; fields = fields }

abbrev pub warn_line : String → Error → Line
warn_line message e = record {
  level = warning;
  message = message;
  fields = ("error", problem e) ∷ [];
}

abbrev pub exit_with : Error → Outcome
exit_with e = record { lines = []; result = err e }

abbrev pub finish : List Line → Outcome
finish lines = record { lines = lines; result = ok tt }

-- The lines of a call that succeeds; a failed one only returns its error.
abbrev pub report : {A : Type 0} → Result A → (A → List Line) → Outcome
report (err e) lines = exit_with e
report (ok a) lines = finish (lines a)

-- The loop over the objects that a command lists.
abbrev pub each : {A : Type 0} → (A → List Line) → List A → List Line
each lines [] = []
each lines (a ∷ rest) = lines a ++ each lines rest

abbrev pub listing : {A : Type 0} → String → (A → List Line) → Result (List A) → Outcome
listing nothing lines (err e) = exit_with e
listing nothing lines (ok []) = finish (info_line nothing [] ∷ [])
listing nothing lines (ok (a ∷ rest)) = finish (each lines (a ∷ rest))

abbrev pub counted : {A : Type 0} → List A → Field
counted xs = number (pos (length xs))

-- A text, or what stands for a blank one.
abbrev pub or_else : String → String → String
or_else s absent = if is_blank s then absent else s

-- An option that a flag sets only if it is given.
abbrev pub if_given : String → (String → Setter) → List Setter
if_given s option = if is_blank s then [] else option s ∷ []

abbrev pub if_positive : ℤ → (ℤ → Setter) → List Setter
if_positive d option = if ltb_ℤ (pos 0) d then option d ∷ [] else []

pub record Cli (W : Type 0) : Type 0 where
  pub host : Host W
  -- the globals `k8sClient` and `namespace`
  pub k8s_client : Option (Client W)
  pub namespace : String
  -- `t.Format(layout)`
  pub format : String → Time → String
  -- the host under `context.WithTimeout(ctx, d)`
  pub bounded : Duration → Host W → Host W

-- `konductor.NewFromClient(k8sClient, namespace)`, with the calls that follow. Those on a nil client
-- panic; `initKubeClient` sets it before every command.
unfoldable pub connected : {W : Type 0} → Cli W → (Host W → Action W Outcome) → Action W Outcome
connected c run = elim c.k8s_client [
  | none ↦ return (exit_with panicked)
  | some client ↦ run (new_from_client c.host client c.namespace)
]

-- `createGateClient` and `createOnceClient`, which check it.
unfoldable pub checked : {W : Type 0} → Cli W → (Host W → Action W Outcome) → Action W Outcome
checked c run = elim c.k8s_client [
  | none ↦ return (exit_with (errorf "kubernetes client not initialized"))
  | some client ↦ run (new_from_client c.host client c.namespace)
]

-- `validateHolder`
unfoldable pub validate_holder : {W : Type 0} → Cli W → String → Result String
validate_holder c holder =
    if is_blank holder
    then if is_blank c.host.hostname
      then err (errorf "holder must be specified or HOSTNAME must be set")
      else ok c.host.hostname
    else ok holder

-- A command that needs a holder.
unfoldable pub holding :
    {W : Type 0} → Cli W → String → (String → Action W Outcome) → Action W Outcome
holding c holder run = elim (validate_holder c holder) [
  | err e ↦ return (exit_with e)
  | ok name ↦ run name
]

abbrev pub clock_text : {W : Type 0} → Cli W → Option Time → String
clock_text c none = "N/A"
clock_text c (some t) = c.format "15:04:05" t

-- The phases as the API writes them.
abbrev pub semaphore_phase : SemaphorePhase → String
semaphore_phase SemaphorePhase.unset = ""
semaphore_phase SemaphorePhase.ready = "Ready"
semaphore_phase SemaphorePhase.full = "Full"
semaphore_phase SemaphorePhase.unavailable = "Unavailable"

abbrev pub barrier_phase : BarrierPhase → String
barrier_phase BarrierPhase.unset = ""
barrier_phase BarrierPhase.waiting = "Waiting"
barrier_phase BarrierPhase.opened = "Open"
barrier_phase BarrierPhase.failed = "Failed"

abbrev pub lease_phase : LeasePhase → String
lease_phase LeasePhase.unset = ""
lease_phase LeasePhase.available = "Available"
lease_phase LeasePhase.held = "Held"
lease_phase LeasePhase.expired = "Expired"

abbrev pub gate_phase : GatePhase → String
gate_phase GatePhase.unset = ""
gate_phase GatePhase.waiting = "Waiting"
gate_phase GatePhase.opened = "Open"
gate_phase GatePhase.failed = "Failed"

abbrev pub mutex_phase : MutexPhase → String
mutex_phase MutexPhase.unset = ""
mutex_phase MutexPhase.unlocked = "Unlocked"
mutex_phase MutexPhase.locked = "Locked"

abbrev pub rw_mutex_phase : RwMutexPhase → String
rw_mutex_phase RwMutexPhase.unset = ""
rw_mutex_phase RwMutexPhase.unlocked = "Unlocked"
rw_mutex_phase RwMutexPhase.read_locked = "ReadLocked"
rw_mutex_phase RwMutexPhase.write_locked = "WriteLocked"

abbrev pub once_phase : OncePhase → String
once_phase OncePhase.unset = ""
once_phase OncePhase.pending = "Pending"
once_phase OncePhase.executed = "Executed"

abbrev pub wait_group_phase : WaitGroupPhase → String
wait_group_phase WaitGroupPhase.unset = ""
wait_group_phase WaitGroupPhase.waiting = "Waiting"
wait_group_phase WaitGroupPhase.done = "Done"
