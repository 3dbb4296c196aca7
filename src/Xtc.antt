-- ===== src/Xtc.antt =====
-- The XTC page container: firmware/src/xtc/XtcFormat.h, and the two programs that read it.
pub mod Access
pub mod Format
pub mod Decoder
pub mod Reader
pub mod Encoder
