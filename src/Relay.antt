-- ===== src/Relay.antt =====
-- friend_relay.c: connections through a relay.
pub mod Types
pub mod Table
pub mod Packet
pub mod Calls
pub mod Listener
pub mod Keeps
pub mod Histories
pub mod Lost
pub mod Greeting
pub mod Joining
