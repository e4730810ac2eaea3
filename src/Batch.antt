-- ===== src/Batch.antt =====
-- internal/controller/batchmigration_controller.go
pub mod Types
pub mod Env
pub mod Action
pub mod Changes
pub mod Resources
pub mod Retry
pub mod Reconcile
pub mod Valid
pub mod Counters
pub mod Closed
pub mod Processed
pub mod Safety
pub mod Runs
mod Examples
