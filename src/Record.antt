-- ===== src/Record.antt =====
-- The record and what it is made of (src/record).
pub mod Kind
pub mod Refs
pub mod Payloads
pub mod Evidence
pub mod Envelope
