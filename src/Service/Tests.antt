-- ===== src/Service/Tests.antt =====
-- The service on one task and on two reconfigurations.
use agentic_ai_tee.Base.{
  ℕ, ◌≡◌, refl, false, none, some, [], pos, Text, codes, end, field, int, str, dict,
}
use agentic_ai_tee.Agent.Controller.Tests.{Ledger, fresh}
use agentic_ai_tee.Agent.Models.{TaskRequest}
use agentic_ai_tee.Agent.LlmClient.Providers.{mock_client}
use agentic_ai_tee.Memory.StateDb.{new_db}
use agentic_ai_tee.Vsock.Protocol.{MessageFrame}
use agentic_ai_tee.Service.State.{Config, State}
use agentic_ai_tee.Service.Tasks.{Outside, Times}
use agentic_ai_tee.Service.Reconfigure.{Choice, chosen_config}

abbrev outside : Outside
outside = record {
  usd_of = λ v. some 2000;
  ms_of = λ v. some 300_000;
  usd = λ n. int (pos n);
  seconds = λ n. int (pos n);
  dumps = λ d. codes "{}";
  document_pcrs = λ d. end;
  sign = λ t. codes "5167";
  unreadable = codes "unreadable";
}

abbrev times : Times
times = record { created = 10; completed = 20; recorded = λ s. 21; elapsed = 10 }

abbrev config : Config
config = record {
  llm_provider = codes "mock";
  llm_model = codes "mock";
  llm_base_url = [];
  llm_api_key = [];
  openai_api_key = [];
  google_api_key = [];
  openrouter_api_key = [];
  groq_api_key = [];
  ollama_base_url = codes "http://localhost:11434";
  default_max_steps = 50;
  default_timeout = 300_000;
  default_budget = 5_000_000;
  domain_allowlist_str = [];
  use_vsock = false;
}

abbrev started : State Ledger ℕ
started = record {
  config = config;
  db = new_db;
  client = mock_client;
  events = [];
  llm_state = fresh;
  world = 0;
}

abbrev sort_request : Text → MessageFrame
sort_request description = record {
  msg_type = str (codes "task_request");
  payload = dict (
      field (codes "task_id") (str (codes "a"))
        (field (codes "description") (str description) end));
  request_id = str (codes "r1");
}

abbrev sort_task : TaskRequest
sort_task = record {
  description = codes "Sort.";
  task_id = codes "a";
  user_id = codes "anonymous";
  budget_usd = 5_000_000;
  max_steps = 50;
  timeout_ms = 300_000;
  tool_allowlist = none;
  domain_allowlist = none;
}

abbrev prompt : TaskRequest → Text
prompt task = codes "Be brief."

abbrev reconfigure : Text → MessageFrame
reconfigure provider = record {
  msg_type = str (codes "reconfigure");
  payload = dict (field (codes "provider") (str provider) end);
  request_id = str (codes "r2");
}

abbrev unknown : Choice
unknown = record { provider = codes "nope"; model = codes "mock"; api_key = []; base_url = [] }

-- The status names a provider that was refused.
refused_provider : (chosen_config unknown config).llm_provider ≡ codes "nope"
unfolding chosen_config
refused_provider = refl
