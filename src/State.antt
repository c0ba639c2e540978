-- ===== src/State.antt =====
-- The state that a log derives (src/state).
pub mod Defs
pub mod Taint
pub mod Operations
pub mod Retract
pub mod Apply
pub mod Build
pub mod Equality
