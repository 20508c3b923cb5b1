-- ===== src/Service/Reconfigure.antt =====
-- EnclaveService.__init__ and EnclaveService._handle_reconfigure of enclave/main.py, for the client of
-- the language model. `lower` is `str.lower`.
pub mod Laws
use agentic_ai_tee.Base.{
  Bool, true, false, not, ◌&&◌, Option, none, some, List, [], ◌∷◌, if◌then◌else◌, is_empty, Text,
  codes, text_eq, Value, Fields, bool, str, dict, end, field,
}
use agentic_ai_tee.Base.Result.{Result, ok, err}
use agentic_ai_tee.Base.Optional.{◌>>=◌}
use agentic_ai_tee.Agent.LlmClient.Providers.{Client, create_llm_client}
use agentic_ai_tee.Vsock.Protocol.{MessageFrame}
use agentic_ai_tee.Service.State.{Config, State, text_or}

-- `{…}.get(config.llm_provider, "")`
unfoldable pub key_of : Config → Text
key_of config =
    if text_eq config.llm_provider (codes "anthropic")
    then config.llm_api_key
    else if text_eq config.llm_provider (codes "openai")
    then config.openai_api_key
    else if text_eq config.llm_provider (codes "gemini")
    then config.google_api_key
    else if text_eq config.llm_provider (codes "openrouter")
    then config.openrouter_api_key
    else if text_eq config.llm_provider (codes "groq")
    then config.groq_api_key
    else []

-- `base_url`, where Ollama's stands in for an empty one
unfoldable pub address_of : Config → Text → Text → Text
address_of config provider base_url =
    if text_eq provider (codes "ollama") && is_empty base_url
    then config.ollama_base_url
    else base_url

-- The client that the service starts with.
unfoldable pub initial_client : (Text → Text) → Config → Result Text Client
initial_client lower config =
    create_llm_client lower config.llm_provider config.llm_model (key_of config)
      (address_of config config.llm_provider config.llm_base_url)

-- `setattr(self.config, key_attr, api_key)`, for a provider that has a key
unfoldable pub set_key : Text → Text → Config → Config
set_key provider api_key config =
    if text_eq provider (codes "anthropic")
    then record config { llm_api_key = api_key }
    else if text_eq provider (codes "openai")
    then record config { openai_api_key = api_key }
    else if text_eq provider (codes "gemini")
    then record config { google_api_key = api_key }
    else if text_eq provider (codes "openrouter")
    then record config { openrouter_api_key = api_key }
    else if text_eq provider (codes "groq")
    then record config { groq_api_key = api_key }
    else config

-- What a payload asks for.
pub record Choice : Type 0 where
  pub provider : Text
  pub model : Text
  pub api_key : Text
  pub base_url : Text

unfoldable pub choice_of : Config → Value → Option Choice
choice_of config (dict payload) = do
  provider ← text_or payload (codes "provider") config.llm_provider
  model ← text_or payload (codes "model") config.llm_model
  api_key ← text_or payload (codes "api_key") []
  base_url ← text_or payload (codes "base_url") []
  some (record { provider = provider; model = model; api_key = api_key; base_url = base_url })
choice_of config _ = none

-- The configuration, which is changed before the client is created.
unfoldable pub chosen_config : Choice → Config → Config
chosen_config c config =
    let named = record config { llm_provider = c.provider; llm_model = c.model } in
    if is_empty c.api_key then named else set_key c.provider c.api_key named

unfoldable pub reconfigured : Value → Choice → MessageFrame
reconfigured request_id c = record {
  msg_type = str (codes "reconfigure_response");
  payload = dict (
      field (codes "success") (bool true)
        (field (codes "provider") (str c.provider) (field (codes "model") (str c.model) end)));
  request_id = request_id;
}

unfoldable pub not_reconfigured : Value → Text → MessageFrame
not_reconfigured request_id message = record {
  msg_type = str (codes "reconfigure_response");
  payload = dict (field (codes "success") (bool false) (field (codes "error") (str message) end));
  request_id = request_id;
}

-- The end of the handler, by what the factory gives; the state has the new configuration.
unfoldable pub swap_client :
    {L W : Type 0}
    → Value
    → Choice
    → Result Text Client
    → State L W
    → Result Text (Option MessageFrame) × State L W
swap_client request_id c (err message) s = (ok (some (not_reconfigured request_id message)), s)
swap_client request_id c (ok client) s =
    (ok (some (reconfigured request_id c)), record s { client = client })

module _ (lower : Text → Text) (unreadable : Text) {L W : Type 0} where
  unfoldable pub choose :
      Value → Option Choice → State L W → Result Text (Option MessageFrame) × State L W
  choose request_id none s = (err unreadable, s)
  choose request_id (some c) s =
      let config = chosen_config c s.config in
      swap_client request_id c
        (create_llm_client lower c.provider c.model c.api_key
          (address_of config c.provider c.base_url))
        (record s { config = config })

  unfoldable pub handle_reconfigure :
      MessageFrame → State L W → Result Text (Option MessageFrame) × State L W
  handle_reconfigure msg s = choose msg.request_id (choice_of s.config msg.payload) s
