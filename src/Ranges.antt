-- ===== src/Ranges.antt =====
-- The views under include/yk/ranges.
pub mod Concat
