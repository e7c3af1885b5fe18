-- ===== src/Execution.antt =====
-- core/src/cauco_core/execution: execution records, their store, and the recovery policy.
pub mod Models
pub mod Store
pub mod Lifecycle
pub mod Invariant
pub mod Calls
pub mod Bindings
