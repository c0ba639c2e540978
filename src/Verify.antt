-- ===== src/Verify.antt =====
-- The verification rules (src/verify).
pub mod Rules
pub mod Prior
pub mod Check
pub mod Envelope
pub mod RecordChecks
pub mod Work
pub mod Lifecycle
pub mod Plans
pub mod Evolution
pub mod Selection
pub mod Replay
