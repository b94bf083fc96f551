-- ===== src/Scheduler.antt =====
-- The scheduler: `src/scheduler`.
pub mod Backoff
pub mod Worker
pub mod Errors
pub mod Contracts
pub mod Ownership
pub mod Audit
pub mod RunOnce
mod Tests
