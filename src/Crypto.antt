-- ===== src/Crypto.antt =====
-- enclave/crypto: the sealing of secrets.
pub mod Sealing
