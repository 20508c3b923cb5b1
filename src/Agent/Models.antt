-- ===== src/Agent/Models.antt =====
-- enclave/agent/models.py: the data classes of the agent. Token counts and costs are exact: a cost is
-- in millionths of a dollar, where the source divides the same sum by 1,000,000 as a float. Times are
-- in milliseconds, and a `timestamp` is left out, as nothing reads it.
use agentic_ai_tee.Base.{
  ℕ, ◌+◌, ◌*◌, Bool, true, false, Option, List, [], ◌∷◌, Text, join, newline, is_empty, any, Value,
  Fields, if◌then◌else◌,
}

pub record ToolUse : Type 0 where
  pub id : Text
  pub name : Text
  pub input : Fields

pub record ToolResult : Type 0 where
  pub tool_use_id : Text
  pub content : Text
  pub is_error : Bool

pub data ContentBlock : Type 0 where
  text_block : Text → ContentBlock
  -- the thinking and its signature
  thinking_block : Text → Text → ContentBlock
  tool_use_block : ToolUse → ContentBlock
  tool_result_block : ToolResult → ContentBlock

pub data Role : Type 0 where
  user assistant : Role

pub data Content : Type 0 where
  plain : Text → Content
  blocks : List ContentBlock → Content

pub record Message : Type 0 where
  pub role : Role
  pub content : Content

-- the texts of the text blocks that are not empty
unfoldable pub block_texts : List ContentBlock → List Text
block_texts [] = []
block_texts (text_block t ∷ bs) = let rest = block_texts bs in if is_empty t then rest else t ∷ rest
block_texts (_ ∷ bs) = block_texts bs

unfoldable pub message_text : Content → Text
message_text (plain t) = t
message_text (blocks bs) = join newline (block_texts bs)

pub record ToolCall : Type 0 where
  pub name : Text
  pub args : Fields

pub record ToolOutput : Type 0 where
  pub success : Bool
  pub result : Value
  pub error : Option Text
  pub latency_ms : ℕ

pub record LlmResponse : Type 0 where
  pub content : List ContentBlock
  pub input_tokens : ℕ
  pub output_tokens : ℕ
  pub latency_ms : ℕ
  pub stop_reason : Text

-- `LLMResponse.text`
unfoldable pub response_text : LlmResponse → Text
response_text r = join newline (block_texts r.content)

unfoldable pub thinking_texts : List ContentBlock → List Text
thinking_texts [] = []
thinking_texts (thinking_block t s ∷ bs) =
    let rest = thinking_texts bs in if is_empty t then rest else t ∷ rest
thinking_texts (_ ∷ bs) = thinking_texts bs

-- `LLMResponse.thinking_text`
unfoldable pub thinking_text : LlmResponse → Text
thinking_text r = join newline (thinking_texts r.content)

unfoldable pub tool_uses : List ContentBlock → List ToolUse
tool_uses [] = []
tool_uses (tool_use_block u ∷ bs) = u ∷ tool_uses bs
tool_uses (_ ∷ bs) = tool_uses bs

-- `LLMResponse.tool_use_blocks`
unfoldable pub tool_use_blocks : LlmResponse → List ToolUse
tool_use_blocks r = tool_uses r.content

abbrev pub is_tool_use : ContentBlock → Bool
is_tool_use (tool_use_block u) = true
is_tool_use _ = false

unfoldable pub has_tool_use : LlmResponse → Bool
has_tool_use r = any is_tool_use r.content

-- `(input_tokens * 3 + output_tokens * 15) / 1_000_000` dollars
abbrev pub micro_usd : ℕ → ℕ → ℕ
micro_usd input_tokens output_tokens = input_tokens * 3 + output_tokens * 15

-- `LLMResponse.cost_usd`
abbrev pub response_cost : LlmResponse → ℕ
response_cost r = micro_usd r.input_tokens r.output_tokens

pub record StepResult : Type 0 where
  pub step_number : ℕ
  pub tool_name : Option Text
  pub tool_args : Fields
  pub output : Option ToolOutput
  pub llm_response : Text
  pub input_tokens : ℕ
  pub output_tokens : ℕ
  pub latency_ms : ℕ

-- `StepResult.cost_usd`
abbrev pub step_cost : StepResult → ℕ
step_cost s = micro_usd s.input_tokens s.output_tokens

pub record TaskRequest : Type 0 where
  pub description : Text
  pub task_id : Text
  pub user_id : Text
  pub budget_usd : ℕ
  pub max_steps : ℕ
  pub timeout_ms : ℕ
  pub tool_allowlist : Option (List Text)
  pub domain_allowlist : Option (List Text)

pub record TaskResult : Type 0 where
  pub task_id : Text
  pub success : Bool
  pub summary : Text
  pub steps : List StepResult
  pub total_cost_usd : ℕ
  pub attestation_hash : Text
  pub error : Option Text

-- The `event_type` of a StepEvent with its `data`.
pub data EventData : Type 0 where
  thinking : EventData
  thinking_content : Text → EventData
  chunk : Text → EventData
  -- the tool, its argument keys, and the preview of its arguments
  tool_call : Text → List Text → List (Text × Text) → EventData
  tool_result : Text → Bool → ℕ → EventData
  -- a progress report, after so many tool calls at such a cost
  checkpoint : ℕ → ℕ → EventData
  -- the history was compacted: its tokens and the context window
  compacted : ℕ → ℕ → EventData
  permission_request : Text → List (Text × Text) → EventData
  complete : Text → EventData
  error : Text → EventData

pub record StepEvent : Type 0 where
  pub task_id : Text
  pub step_number : ℕ
  pub event : EventData

-- A Python exception: its class name, its message, and whether it is an `asyncio.TimeoutError`.
pub record Exn : Type 0 where
  pub type_name : Text
  pub message : Text
  pub is_timeout : Bool

-- What ends a coroutine early: an exception, or the cancellation by a timeout around it.
pub data Stop : Type 0 where
  raised : Exn → Stop
  cancelled : Stop
