-- ===== src/Tools.antt =====
-- enclave/tools: the registry, the router, and the tools.
pub mod Registry
pub mod Router
pub mod Args
pub mod Disk
pub mod Edits
pub mod ApiCall
pub mod Affixes
pub mod FileOps
pub mod Tests
