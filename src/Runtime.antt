-- ===== src/Runtime.antt =====
-- The process around the workers: `src/runtime`.
pub mod Coordinator
mod Tests
