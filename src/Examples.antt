-- ===== src/Examples.antt =====
-- Tests, and the theorems at concrete inputs.
mod Locks
mod Acquisitions
mod Counts
mod Compositions
mod Counters
mod Reconcilers
mod Tenures
mod Races
mod Retries
mod Schemas
mod Semaphores
mod Executions
mod Gates
mod Barriers
mod Probes
mod Progresses
