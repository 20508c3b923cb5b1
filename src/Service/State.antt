-- ===== src/Service/State.antt =====
-- enclave/main.py: the configuration of EnclaveService and the state that its handlers share. Values of
-- a payload that have other types than the host sends are none, whether the code raises on them or
-- passes them along.
use agentic_ai_tee.Base.{
  ℕ, Bool, true, false, not, Option, none, some, List, [], ◌∷◌, ◌++◌, if◌then◌else◌, ◌==◌, is_empty,
  map, keep, Text, strip, Value, Fields, str, int, pos, get_field,
}
use agentic_ai_tee.Agent.Models.{StepEvent}
use agentic_ai_tee.Agent.LlmClient.Providers.{Client}
use agentic_ai_tee.Memory.StateDb.{Db}

-- The fields of EnclaveConfig that the handlers read or change. A number of dollars is in millionths,
-- a time in milliseconds.
pub record Config : Type 0 where
  pub llm_provider : Text
  pub llm_model : Text
  pub llm_base_url : Text
  pub llm_api_key : Text
  pub openai_api_key : Text
  pub google_api_key : Text
  pub openrouter_api_key : Text
  pub groq_api_key : Text
  pub ollama_base_url : Text
  pub default_max_steps : ℕ
  pub default_timeout : ℕ
  pub default_budget : ℕ
  pub domain_allowlist_str : Text
  pub use_vsock : Bool

-- `s.split(",")`, with the piece that is being read
abbrev split_from : Text → Text → List Text
split_from piece [] = piece ∷ []
split_from piece (c ∷ t) = elim (c == b',') [
  | true ↦ piece ∷ split_from [] t
  | false ↦ split_from (piece ++ (c ∷ [])) t
]

unfoldable pub split_commas : Text → List Text
split_commas t = split_from [] t

-- `EnclaveConfig.domain_allowlist`
unfoldable pub domain_allowlist : Config → Option (List Text)
domain_allowlist config =
    if is_empty config.domain_allowlist_str
    then none
    else some (
        map strip (keep (λ d. not (is_empty (strip d))) (split_commas config.domain_allowlist_str)))

-- What the handlers share: the configuration, the database, the client behind the planner, the events
-- of the controller, and the states of the language model and of the tools' world.
pub record State (L W : Type 0) : Type 0 where
  pub config : Config
  pub db : Db
  pub client : Client
  pub events : List StepEvent
  pub llm_state : L
  pub world : W

-- `payload.get(key, default)` for a text and for a number
unfoldable pub text_or : Fields → Text → Text → Option Text
text_or payload key default = elim (get_field payload key) [
  | none ↦ some default
  | some (str t) ↦ some t
  | some _ ↦ none
]

abbrev pub count_of : Value → Option ℕ
count_of (int (pos n)) = some n
count_of _ = none

unfoldable pub number_or : (Value → Option ℕ) → Fields → Text → ℕ → Option ℕ
number_or read payload key default = elim (get_field payload key) [
  | none ↦ some default
  | some v ↦ read v
]
