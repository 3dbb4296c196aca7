-- ===== src/Calendar.antt =====
-- firmware/src/calendar: the calendar's wake-up targets, the arithmetic of dates, and the parser of
-- the calendar's feed.
pub mod Wake
pub mod TimeUtil
pub mod Ics
pub mod Feeds
