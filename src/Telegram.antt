-- ===== src/Telegram.antt =====
-- The Telegram side of the program: `src/telegram`.
pub mod NewsJobs
pub mod Updates
pub mod Polling
pub mod Reviews
pub mod Control
mod Tests
