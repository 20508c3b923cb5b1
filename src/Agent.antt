-- ===== src/Agent.antt =====
-- enclave/agent: the data that the agent passes around, and the controller that runs a task.
pub mod Models
pub mod LlmClient
pub mod Controller
