-- ===== src/Service/Reconfigure/Laws.antt =====
-- When the client is swapped, and what a refused swap leaves behind.
use agentic_ai_tee.Base.{◌≡◌, Bool, true, false, List, [], ◌∷◌, Text, codes, text_eq, any}
use agentic_ai_tee.Base.Result.{Result, ok, err}
use agentic_ai_tee.Agent.LlmClient.Providers.{Client, create_llm_client}
use agentic_ai_tee.Service.State.{State}
use agentic_ai_tee.Service.Reconfigure.{Choice, chosen_config, address_of}

-- The providers that the factory knows.
abbrev pub known_providers : List Text
known_providers =
    codes "anthropic"
    ∷ codes "openai"
    ∷ codes "gemini"
    ∷ codes "openrouter"
    ∷ codes "groq"
    ∷ codes "ollama"
    ∷ codes "mock"
    ∷ []

abbrev pub knows : Text → Bool
knows provider = any (λ name. text_eq provider name) known_providers

-- A result that there is just where the test holds.
abbrev Decides : Text → Bool → Result Text Client → Type 0
Decides message known r =
    (known ≡ true → (client : Client) × (r ≡ ok client)) × (known ≡ false → r ≡ err message)

module _ (lower : Text → Text) (unreadable : Text) {L W : Type 0} where
  -- What is asked of the factory.
  abbrev pub asked_client : State L W → Choice → Result Text Client
  asked_client s c =
      create_llm_client lower c.provider c.model c.api_key
        (address_of (chosen_config c s.config) c.provider c.base_url)
