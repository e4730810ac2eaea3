-- ===== src/Retry.antt =====
-- Errors and retries of the controllers: internal/controller/errors.go and retry_handler.go.
pub mod Errors
pub mod Backoff
pub mod Classify
pub mod Handler
mod Examples
