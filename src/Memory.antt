-- ===== src/Memory.antt =====
-- enclave/tools/memory_tool.py and enclave/memory: what the agent remembers.
pub mod Store
pub mod Search
pub mod Manager
pub mod StateDb
