-- ===== src/Core.antt =====
-- packages/core/src: the deterministic game engine.
pub mod Resource
pub mod Rng
pub mod Effects
pub mod Conditions
pub mod Scheduler
pub mod Advance
pub mod Process
pub mod Tasks
pub mod Actions
pub mod Social
