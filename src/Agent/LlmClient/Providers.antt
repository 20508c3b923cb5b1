-- ===== src/Agent/LlmClient/Providers.antt =====
-- create_llm_client and get_available_providers of enclave/agent/llm_client.py. `lower` is `str.lower`.
use agentic_ai_tee.Base.{
  Option, none, some, List, [], ◌∷◌, ◌++◌, if◌then◌else◌, is_empty, Text, codes, text_eq, strip,
}
use agentic_ai_tee.Base.Result.{Result, ok, err}

-- A client by the arguments of its constructor; an empty key or address is none.
pub data Client : Type 0 where
  -- the model, the API key and the base URL
  anthropic_client openai_client openrouter_client groq_client :
      Text → Option Text → Option Text → Client
  gemini_client : Text → Option Text → Client
  -- the model and the base URL
  ollama_client : Text → Text → Client
  mock_client : Client

-- `t or None` and `t or default`
abbrev pub or_none : Text → Option Text
or_none t = if is_empty t then none else some t

abbrev pub or_text : Text → Text → Text
or_text t default = if is_empty t then default else t

-- the `ValueError`
unfoldable pub unknown_provider : Text → Text
unknown_provider provider =
    codes "Unknown LLM provider: '"
    ++ (provider ++ codes "'. Supported: anthropic, openai, gemini, openrouter, groq, ollama, mock")

-- the branches, on the provider in lower case and stripped
unfoldable pub client_for : Text → Text → Text → Text → Result Text Client
client_for provider model api_key base_url =
    if text_eq provider (codes "anthropic")
    then ok (
        anthropic_client (or_text model (codes "claude-sonnet-4-20250514")) (or_none api_key)
          (or_none base_url))
    else if text_eq provider (codes "openai")
    then ok (openai_client (or_text model (codes "gpt-4o")) (or_none api_key) (or_none base_url))
    else if text_eq provider (codes "gemini")
    then ok (gemini_client (or_text model (codes "gemini-2.5-flash")) (or_none api_key))
    else if text_eq provider (codes "openrouter")
    then ok (
        openrouter_client (or_text model (codes "anthropic/claude-sonnet-4")) (or_none api_key)
          (or_none base_url))
    else if text_eq provider (codes "groq")
    then ok (
        groq_client (or_text model (codes "meta-llama/llama-4-scout-17b-16e-instruct"))
          (or_none api_key) (or_none base_url))
    else if text_eq provider (codes "ollama")
    then ok (
        ollama_client (or_text model (codes "llama3.1:8b"))
          (or_text base_url (codes "http://localhost:11434")))
    else if text_eq provider (codes "mock")
    then ok mock_client
    else err (unknown_provider provider)

unfoldable pub create_llm_client : (Text → Text) → Text → Text → Text → Text → Result Text Client
create_llm_client lower provider model api_key base_url =
    client_for (strip (lower provider)) model api_key base_url

-- `if os.getenv(key): available[provider] = True`
abbrev pub if_set : (Text → Option Text) → Text → Text → List Text → List Text
if_set getenv key provider rest = elim (getenv key) [
  | none ↦ rest
  | some v ↦ if is_empty v then rest else provider ∷ rest
]

-- The providers of get_available_providers, in order; the dict maps each of them to True.
unfoldable pub get_available_providers : (Text → Option Text) → List Text
get_available_providers getenv =
    codes "mock"
    ∷ if_set getenv (codes "ANTHROPIC_API_KEY") (codes "anthropic") (
        if_set getenv (codes "OPENAI_API_KEY") (codes "openai") (
          if_set getenv (codes "GOOGLE_API_KEY") (codes "gemini") (
            if_set getenv (codes "OPENROUTER_API_KEY") (codes "openrouter")
              (if_set getenv (codes "GROQ_API_KEY") (codes "groq") (codes "ollama" ∷ [])))))
