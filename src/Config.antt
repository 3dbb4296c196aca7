-- ===== src/Config.antt =====
-- firmware/src/config: what the device keeps in /system, one module for each class.
pub mod File
pub mod Settings
pub mod Cache
pub mod Calendars
pub mod Device
pub mod Wifi
