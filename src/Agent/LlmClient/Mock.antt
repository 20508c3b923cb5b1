-- ===== src/Agent/LlmClient/Mock.antt =====
-- MockLLMClient of enclave/agent/llm_client.py, for responses that are lists of blocks or whole
-- responses. Of the responses that are texts only the one behind the last is modelled, with the blocks
-- that its tags give.
pub mod Laws
use agentic_ai_tee.Base.{
  ℕ, zero, suc, ◌+◌, ◌*◌, Bool, Option, none, some, List, [], ◌∷◌, ◌++◌, if◌then◌else◌, any, length,
  drop, Text, codes, newline,
}
use agentic_ai_tee.Base.Result.{ok}
use agentic_ai_tee.Agent.Models.{ContentBlock, text_block, LlmResponse, is_tool_use}
use agentic_ai_tee.Agent.Controller.State.{LlmRequest, Llm}

pub data MockResponse : Type 0 where
  whole : LlmResponse → MockResponse
  block_list : List ContentBlock → MockResponse

pub record MockLlmClient : Type 0 where
  pub responses : List MockResponse
  pub call_count : ℕ
  pub calls : List LlmRequest

unfoldable pub new_mock : List MockResponse → MockLlmClient
new_mock responses = record { responses = responses; call_count = 0; calls = [] }

-- the text that stands for the end of a task
abbrev pub completed_text : Text
completed_text =
    codes "<thinking>All steps complete.</thinking>"
    ++ (newline
        ++ (codes "<task_complete>"
            ++ (newline
                ++ (codes "  <summary>Task completed successfully.</summary>"
                    ++ (newline ++ codes "</task_complete>")))))

-- `self._responses[self._call_count]`, if there is one
unfoldable pub scripted : List MockResponse → ℕ → Option MockResponse
scripted [] n = none
scripted (r ∷ rs) zero = some r
scripted (r ∷ rs) (suc n) = scripted rs n

unfoldable pub mock_response : Option MockResponse → ℕ → LlmResponse
mock_response (some (whole response)) messages = response
mock_response (some (block_list bs)) messages = record {
  content = bs;
  input_tokens = 100 * messages;
  output_tokens = 10;
  latency_ms = 50;
  stop_reason = if any is_tool_use bs then codes "tool_use" else codes "end_turn";
}
mock_response none messages = record {
  content =
      text_block (codes "All steps complete.")
      ∷ text_block (codes "Task completed successfully.")
      ∷ [];
  input_tokens = 100 * messages;
  output_tokens = length completed_text;
  latency_ms = 50;
  stop_reason = codes "end_turn";
}

-- `call`
unfoldable pub mock_call : Llm MockLlmClient
mock_call q mock = (
  ok (mock_response (scripted mock.responses mock.call_count) (length q.messages)),
  [],
  record mock { call_count = mock.call_count + 1; calls = mock.calls ++ (q ∷ []) },
)
