-- ===== src/Turn.antt =====
-- turn_client.c: connections through a TURN server.
pub mod Types
pub mod Table
pub mod Request
pub mod Response
pub mod Calls
pub mod Walking
pub mod Overlap
