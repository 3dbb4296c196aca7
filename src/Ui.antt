-- ===== src/Ui.antt =====
-- firmware/src/ui: the parts that compute what a screen shows.
pub mod Timeline
pub mod CategoryStyle
pub mod Web
