-- ===== src/Agent/LlmClient.antt =====
-- enclave/agent/llm_client.py: the clients of the language models.
pub mod Convert
pub mod Chat
pub mod OpenRouter
pub mod Anthropic
pub mod Mock
pub mod Providers
pub mod Tests
