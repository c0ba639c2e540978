-- ===== src/Log.antt =====
-- src/log: the append-only store, and the single writer that commits to it.
pub mod Errors
pub mod Storage
pub mod Writer
