-- ===== src/Base/Time/Bounds.antt =====
-- src/base/time.rs: the clock within u64.
