-- ===== src/Smart.antt =====
-- internal/smart: the engine that plans and executes migrations
pub mod Types
pub mod Breaker
pub mod Matching
pub mod Retrying
pub mod Planning
pub mod Groups
pub mod Total
pub mod Execution
mod Examples
