-- ===== src/Strategy.antt =====
-- strategy_selector.c: the strategies for reaching a peer.
pub mod Types
pub mod Select
pub mod Nat
pub mod Sort
pub mod Fit
