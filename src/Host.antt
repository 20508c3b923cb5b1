-- ===== src/Host.antt =====
-- host: what the host does with what the enclave attests.
pub mod Verifier
pub mod Api
