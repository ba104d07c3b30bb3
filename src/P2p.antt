-- ===== src/P2p.antt =====
-- p2p_manager.c: the peers that messages go to and come from.
pub mod Types
pub mod Message
pub mod Table
pub mod Channel
pub mod Handlers
pub mod Listener
pub mod Connect
pub mod Capability
pub mod Keeps
pub mod Steps
pub mod Calls
pub mod Histories
pub mod Endings
pub mod Sending
pub mod Silence
pub mod Requests
pub mod Entries
pub mod Calling
pub mod Secrecy
pub mod Lost
pub mod Aside
