-- ===== src/Migration.antt =====
-- internal/controller/adotogitmigration_controller.go
pub mod Types
pub mod Env
pub mod Action
pub mod Tokens
pub mod Conditions
pub mod Restart
pub mod Repository
pub mod Code
pub mod Resource
pub mod Running
pub mod Validate
pub mod Sync
pub mod Annotations
pub mod Reconcile
pub mod Keeps
pub mod Valid
pub mod Safety
pub mod Runs
mod Examples
