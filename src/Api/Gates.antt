-- ===== src/Api/Gates.antt =====
-- api/v1/gate_types.go.
use konductor.Prelude.{ℤ, Bool, true, false, String, List, Option}
use konductor.Api.Meta.{Time, Duration, Object}

pub record GateCondition : Type 0 where
  pub type : String
  pub name : String
  pub namespace : String
  pub state : String
  pub value : Option ℤ

pub record GateSpec : Type 0 where
  pub conditions : List GateCondition
  pub timeout : Option Duration

pub record GateConditionStatus : Type 0 where
  pub type : String
  pub name : String
  pub met : Bool
  pub message : String

pub data GatePhase : Type 0 where
  unset waiting opened failed : GatePhase

pub record GateStatus : Type 0 where
  pub phase : GatePhase
  pub condition_statuses : List GateConditionStatus
  pub opened_at : Option Time

abbrev pub Gate : Type 0
Gate = Object GateSpec GateStatus

abbrev pub is_waiting_gate : GatePhase → Bool
is_waiting_gate GatePhase.waiting = true
is_waiting_gate _ = false

abbrev pub is_opened_gate : GatePhase → Bool
is_opened_gate GatePhase.opened = true
is_opened_gate _ = false

abbrev pub is_failed_gate : GatePhase → Bool
is_failed_gate GatePhase.failed = true
is_failed_gate _ = false
