-- ===== src/Plugins.antt =====
-- packages/plugins/src: the check by a twenty-sided die.
pub mod Narrative
pub mod Rendering
pub mod DiceCheck
pub mod Promise
pub mod Projection
