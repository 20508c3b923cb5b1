-- ===== src/Agent/LlmClient/Tests.antt =====
-- The clients on short conversations, with stand-ins for JSON.
use agentic_ai_tee.Base.{
  ℕ, ◌-◌, ◌≡◌, refl, true, false, Option, none, some, List, [], ◌∷◌, length, All, Text, codes,
  Value, Fields, end, dict,
}
use agentic_ai_tee.Agent.Models.{
  text_block, thinking_block, tool_use_block, tool_result_block, plain, blocks, Message, user,
  assistant, TaskRequest, Exn,
}
use agentic_ai_tee.Agent.Controller.State.{Controller}
use agentic_ai_tee.Agent.Controller.Loop.{run_task}
use agentic_ai_tee.Agent.Controller.Retry.{Executor}
use agentic_ai_tee.Agent.Controller.Tests.{
  Ledger, controller, task, digest, fresh, client_only_calls,
}
use agentic_ai_tee.Base.Dict
use agentic_ai_tee.Tools.Tests.{plain_format}
use agentic_ai_tee.Agent.LlmClient.Convert.{convert_messages_to_openai}
use agentic_ai_tee.Agent.LlmClient.Convert.Laws.{IsAnswering, run_task_api_messages}
use agentic_ai_tee.Agent.LlmClient.OpenRouter.{Reply, response, connection_error, Http}
use agentic_ai_tee.Agent.LlmClient.Anthropic.{anthropic_messages}
use agentic_ai_tee.Agent.LlmClient.Anthropic.Laws.{
  read_messages, without_thinking, read_messages-anthropic_messages,
}
use agentic_ai_tee.Agent.LlmClient.Mock.{mock_call, MockLlmClient}

-- A stand-in for JSON that knows one object only.
abbrev dumps : Fields → Text
dumps d = codes "{}"

abbrev loads : Text → Option Value
loads t = some (dict end)

run_task_api_messages_example :
    All
      (λ q. IsAnswering [] (convert_messages_to_openai dumps q.messages))
      (run_task plain_format digest controller task
        (codes "Be brief.")
        []
        fresh
        0).1.llm_state.requests
run_task_api_messages_example =
    run_task_api_messages plain_format digest controller task (codes "Be brief.") dumps
      (λ l. l.requests) (λ q l. refl) client_only_calls [] fresh 0 tt

abbrev talk : List Message
talk =
    record { role = user; content = plain (codes "Sort.") }
    ∷ record {
      role = assistant;
      content = blocks (
          thinking_block (codes "Hm.") (codes "s")
          ∷ text_block (codes "Sorting.")
          ∷ tool_use_block (record { id = codes "t1"; name = codes "sort"; input = end })
          ∷ []);
    }
    ∷ record {
      role = user;
      content = blocks (
          tool_result_block
            (record { tool_use_id = codes "t1"; content = codes "no file"; is_error = true })
          ∷ []);
    }
    ∷ []

-- What an interface is sent, read back, for some messages.
read_messages-anthropic_messages_example :
    read_messages (anthropic_messages talk) ≡ some (without_thinking talk)
read_messages-anthropic_messages_example = read_messages-anthropic_messages talk

abbrev unavailable : Exn
unavailable = record {
  type_name = codes "HTTPStatusError";
  message = codes "503";
  is_timeout = false;
}

abbrev http : Http
http = record {
  status_error = λ n. unavailable;
  not_json = unavailable;
  seconds_of = λ t. some 1000;
}

-- A rate limit, a server error, a broken connection, and then a reply.
abbrev failures : List Reply
failures =
    response 429 (some (codes "1")) none
    ∷ response 503 none none
    ∷ connection_error unavailable
    ∷ []

abbrev mocked : Controller MockLlmClient ℕ
mocked = record {
  llm = mock_call;
  executor = controller.executor;
  schedule = λ n. [];
  default_timeout = 300_000;
  context_window = 200_000;
  enable_thinking = false;
  require_permission = false;
  streaming = false;
}

-- The client's first answer uses a tool, and the later ones do not. No tool is registered.
abbrev bare : Executor ℕ
bare = record { registry = []; router_timeout = 60_000; sleep = λ t w. (true, w) }

abbrev bare_controller : Controller Ledger ℕ
bare_controller = record controller { executor = bare }

abbrev cheap_task : TaskRequest
cheap_task = record task { budget_usd = 2000 }

abbrev rank : Ledger → ℕ
rank l = 1 - length l.requests
