-- ===== src/Agent/Controller.antt =====
-- enclave/agent/controller.py: the life of a task.
pub mod Context
pub mod Output
pub mod Gather
pub mod Retry
pub mod State
pub mod Loop
pub mod Permission
pub mod Turn
pub mod Tests
