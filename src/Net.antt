-- ===== src/Net.antt =====
-- firmware/src/net: the client of the Pi and of the relay. HTTP, TLS and SHA-256 are parameters.
pub mod Http
pub mod Client
