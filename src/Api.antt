-- ===== src/Api.antt =====
-- The objects that the program keeps in the Kubernetes API server (api/v1), and what it exchanges
-- with the server. `TypeMeta`, `ListMeta` and the `Conditions` fields, which no code reads or
-- writes, are left out; a list type `XList` is the list of its `Items`.
pub mod Meta
pub mod Errors
pub mod Locks
pub mod Counters
pub mod Leases
pub mod Gates
pub mod Schema
