-- ===== src/Calendar/Ics.antt =====
-- firmware/src/calendar/IcsParser: a calendar feed, read byte by byte into the event occurrences of a
-- window. The children are the parser's layers from its texts up to its lines.
pub mod Strings
pub mod Rules
pub mod State
pub mod Zones
pub mod Emit
pub mod Expand
pub mod Events
pub mod Lines
