-- ===== src/Base.antt =====
-- Logical time, hash text and schema names (src/base).
pub mod Time
pub mod Hash
pub mod Schema
