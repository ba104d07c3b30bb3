-- ===== src/Tests.antt =====
-- Runs of the code at concrete inputs, each of which applies a theorem.
mod Store
mod Delivery
mod Loop
mod Ids
mod Plan
mod Guess
mod Sealed
mod Peers
mod Open
mod Asking
mod Relayed
mod Turned
