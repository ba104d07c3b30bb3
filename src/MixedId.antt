-- ===== src/MixedId.antt =====
-- mixed_id.c: an id, an IPv4 address and a port in one text of four numbers.
pub mod Codec
pub mod Detect
pub mod Scan
pub mod RoundTrip
pub mod Ambiguous
