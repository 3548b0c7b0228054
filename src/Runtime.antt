-- ===== src/Runtime.antt =====
-- packages/runtime/src: the storage of play sessions.
pub mod Records
pub mod Storage
pub mod Claim
pub mod Commit
pub mod Moves
pub mod Handlers
pub mod Holders
pub mod Steps
pub mod Keys
pub mod Invariant
pub mod Keeps
pub mod WellFormed
pub mod Opening
pub mod Reachable
pub mod Lasting
pub mod Promises
pub mod Fencing
