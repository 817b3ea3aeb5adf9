-- ===== src/Presence.antt =====
-- wire-app/src/client_status.rs: presence heartbeats between saved contacts.
pub mod Health
pub mod Packet
pub mod Protocol
mod Tests
