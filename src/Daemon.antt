-- ===== src/Daemon.antt =====
-- daemon.c and commands.c: the daemon's commands, and the program that asks for them.
pub mod Types
pub mod Friends
pub mod Talk
pub mod Dispatch
pub mod Client
pub mod Keeps
pub mod Words
pub mod Asked
pub mod Answers
pub mod Listing
