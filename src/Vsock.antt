-- ===== src/Vsock.antt =====
-- enclave/vsock: the framing of messages and the server that answers them.
pub mod Protocol
pub mod Server
pub mod Client
