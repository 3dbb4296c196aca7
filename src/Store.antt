-- ===== src/Store.antt =====
-- firmware/src/store: the stores that outlive a deep sleep, and how they are saved to the SD card.
pub mod Card
pub mod Json
pub mod Jobs
pub mod Outbox
pub mod Planner
