-- ===== src/Sdk/RwMutex/Exclusion.antt =====
-- Readers and writers of sdk/go/rwmutex/rwmutex.go together with controllers/rwmutex_controller.go:
-- what the processes and the reconciler do with an rwmutex that they have read.
pub mod Safety
pub mod Readers
pub mod Refinement
use konductor.Prelude.{◌≡◌, String, Option, none, some, if◌then◌else◌, arith}
use konductor.Api.Meta.{Time}
use konductor.Api.Errors.{Result, ok, err}
use konductor.Api.Locks.{RwMutex}
use konductor.Controllers.RwMutex.{refresh}
use konductor.Sdk.RwMutex.{claim_read, claim_write, release_read, release_write}

pub data Intent : Type 0 where
  rlock lock : Time → String → Intent
  runlock unlock : String → Intent
  reconcile : Time → Intent

abbrev pub accepted : Result RwMutex → Option RwMutex
accepted (err e) = none
accepted (ok rw) = some rw

-- The object that a process sends, if it sends one.
unfoldable pub plan : Intent → RwMutex → Option RwMutex
plan (rlock t holder) rw = accepted (claim_read t holder rw)
plan (lock t holder) rw = accepted (claim_write t holder rw)
plan (runlock holder) rw = accepted (release_read holder rw)
plan (unlock holder) rw = accepted (release_write holder rw)
plan (reconcile t) rw =
    let (s, updated) = refresh t rw.status in
    if updated then some (record rw { status = s }) else none

pub plan_meta : (a : Intent) (m m' : RwMutex) → plan a m ≡ some m' → m'.meta ≡ m.meta
unfolding plan claim_read claim_write release_read release_write
plan_meta (rlock t holder) m m' e = ground arith
plan_meta (lock t holder) m m' e = ground arith
plan_meta (runlock holder) m m' e = ground arith
plan_meta (unlock holder) m m' e = ground arith
plan_meta (reconcile t) m m' e = ground arith
