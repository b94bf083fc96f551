-- ===== src/Ai.antt =====
-- The provider-neutral AI port: `src/ai/ai-provider-composition.ts`.
pub mod Breaker
pub mod Delay
pub mod Deadlines
pub mod Cascade
mod Tests
