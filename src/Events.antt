-- ===== src/Events.antt =====
-- event_loop.c: the queue of events, the handlers and the loop that joins them.
pub mod Types
pub mod Queue
pub mod Ring
pub mod World
pub mod Handlers
pub mod Keeps
pub mod Effects
pub mod Outcome
pub mod Pop
pub mod Threads
