-- ===== src/State.antt =====
-- state_manager.c: the table of peers, the ghost messages and the message log.
pub mod Types
pub mod Ids
pub mod Peers
pub mod Fields
pub mod Queries
pub mod Ghosts
pub mod Table
pub mod Live
pub mod Valid
pub mod View
pub mod Change
pub mod Setters
pub mod Delivery
pub mod Counts
pub mod Tracked
pub mod Waiting
pub mod Sending
pub mod Effect
pub mod Stale
