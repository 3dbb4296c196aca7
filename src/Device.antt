-- ===== src/Device.antt =====
-- The device between two wake-ups.
pub mod Sleep
