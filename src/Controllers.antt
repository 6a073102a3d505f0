-- ===== src/Controllers.antt =====
-- The operator's reconcilers (controllers/*_controller.go), one module for each kind, and what a
-- `Reconcile` returns. `SetupWithManager`, which registers a reconciler with the framework, and
-- the log lines are left out.
pub mod Outcome
pub mod Barrier
pub mod Semaphore
pub mod Lease
pub mod Gate
pub mod Mutex
pub mod Once
pub mod RwMutex
pub mod WaitGroup
