-- ===== src/SimOpen.antt =====
-- simultaneous_open.c: two peers that open a TCP connection to each other at the same time.
pub mod Types
pub mod Packet
pub mod Session
pub mod Connect
pub mod Cases
pub mod Forged
pub mod Holds
pub mod Waiting
pub mod Agreement
pub mod Texts
pub mod Outcome
pub mod Attempt
