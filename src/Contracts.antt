-- ===== src/Contracts.antt =====
-- packages/contracts/src: the shapes of the world state, effects, conditions, events and acts, and
-- the guards that read them from untrusted values.
pub mod Value
pub mod World
pub mod Effect
pub mod Condition
pub mod Event
pub mod Social
pub mod Authoring
