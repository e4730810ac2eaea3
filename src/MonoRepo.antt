-- ===== src/MonoRepo.antt =====
-- The MonoRepoMigrationReconciler: internal/controller/monorepomigration_controller.go, with
-- internal/services/monorepo_migration.go.
pub mod Types
pub mod Env
pub mod Action
pub mod Tokens
pub mod Branches
pub mod Git
pub mod Assemble
pub mod Progress
pub mod Cloning
pub mod Merging
pub mod Pushing
pub mod Validate
pub mod Annotations
pub mod Reconcile
pub mod Machine
pub mod Steady
pub mod Saves
pub mod Refines
pub mod Runs
pub mod Merged
mod Examples
