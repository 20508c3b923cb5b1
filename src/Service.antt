-- ===== src/Service.antt =====
-- enclave/main.py: the service that wires the components together.
pub mod State
pub mod Tasks
pub mod Reconfigure
pub mod Handlers
pub mod Tests
