-- ===== src/Sdk/Mutex/Exclusion.antt =====
-- Mutual exclusion of sdk/go/mutex/mutex.go together with controllers/mutex_controller.go: what the
-- processes and the reconciler do with a mutex that they have read.
pub mod Safety
pub mod Refinement
use konductor.Prelude.{◌≡◌, String, Option, none, some, if◌then◌else◌, arith}
use konductor.Api.Meta.{Time}
use konductor.Api.Errors.{ok, err}
use konductor.Api.Locks.{Mutex}
use konductor.Controllers.Mutex.{refresh}
use konductor.Sdk.Mutex.{claim, release}

-- What a process does with the mutex that it has read, at a time and for a holder.
pub data Intent : Type 0 where
  lock : Time → String → Intent
  unlock : String → Intent
  reconcile : Time → Intent

-- The object that it sends, if it sends one.
unfoldable pub plan : Intent → Mutex → Option Mutex
plan (lock t holder) m = elim (claim t holder m) [ err e ↦ none | ok m' ↦ some m' ]
plan (unlock holder) m = elim (release holder m) [ err e ↦ none | ok m' ↦ some m' ]
plan (reconcile t) m =
    let (s, updated) = refresh t m.status in
    if updated then some (record m { status = s }) else none

pub plan_meta : (a : Intent) (m m' : Mutex) → plan a m ≡ some m' → m'.meta ≡ m.meta
unfolding plan claim release
plan_meta (lock t holder) m m' e = ground arith
plan_meta (unlock holder) m m' e = ground arith
plan_meta (reconcile t) m m' e = ground arith
