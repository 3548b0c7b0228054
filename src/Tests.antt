-- ===== src/Tests.antt =====
-- Runs of the definitions on small worlds, and the theorems applied to them.
mod Data
mod Effects
mod Conditions
mod Rng
mod Scheduler
mod Process
mod Acts
mod Runtime
mod Jobs
mod Drafts
mod Dice
