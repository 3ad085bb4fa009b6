-- ===== src/Durable.antt =====
-- src/durable: Durable Objects, their registry and their alarms.
pub mod Alarms
pub mod Depths
pub mod Ids
pub mod Registry
pub mod Sockets
