-- ===== src/Sdk.antt =====
-- The Go SDK (sdk/go): the client package, and one module for each primitive.
pub mod Host
pub mod Options
pub mod Client
pub mod Wait
pub mod Retry
pub mod Schema
pub mod Semaphore
pub mod Barrier
pub mod Lease
pub mod Gate
pub mod Mutex
pub mod RwMutex
pub mod WaitGroup
pub mod Once
