-- ===== src/Crypto.antt =====
-- orca_crypto.c and aes_gcm.c: the parts that do not call OpenSSL.
pub mod Hex
pub mod Nonce
pub mod Message
