-- ===== src/Ingress.antt =====
-- src/ingress.rs: public requests. The header map and the URI parser (crates http and hyper), the
-- parsers of addresses and UUIDs, and the decoder of percent escapes are parameters.
pub mod Headers
pub mod Names
pub mod Prepare
pub mod Config
pub mod Routes
pub mod Trust
mod Tests
