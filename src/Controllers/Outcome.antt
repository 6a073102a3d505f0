-- ===== src/Controllers/Outcome.antt =====
-- `(ctrl.Result, error)`, the result of every `Reconcile`.
use konductor.Prelude.{pos, Bool, true, false, Option, none, some, if◌then◌else◌}
use konductor.Api.Meta.{Duration}
use konductor.Api.Errors.{Error, is_not_found}

pub record Reconciled : Type 0 where
  pub requeue : Bool
  pub requeue_after : Duration
  pub error : Option Error

-- `ctrl.Result{}, nil`
abbrev pub stop : Reconciled
stop = record { requeue = false; requeue_after = pos 0; error = none }

-- `ctrl.Result{}, err`
abbrev pub fail : Error → Reconciled
fail e = record { requeue = false; requeue_after = pos 0; error = some e }

abbrev pub requeue_in : Duration → Reconciled
requeue_in d = record { requeue = false; requeue_after = d; error = none }

abbrev pub requeue_now : Reconciled
requeue_now = record { requeue = true; requeue_after = pos 0; error = none }

-- A `Get` that fails: an object that is gone is no error.
abbrev pub not_found_or : Error → Reconciled
not_found_or e = if is_not_found e then stop else fail e
