-- ===== src/Examples.antt =====
-- Runs of the models at concrete inputs, and each theorem applied to such inputs.
mod Sync
mod Stores
mod Timing
mod Files
mod Json
mod Ics
mod Reader
mod Encoder
mod Config
mod Net
mod Web
