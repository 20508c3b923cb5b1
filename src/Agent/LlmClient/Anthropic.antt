-- ===== src/Agent/LlmClient/Anthropic.antt =====
-- AnthropicClient.call of enclave/agent/llm_client.py: the arguments of the call, and its response.
pub mod Laws
use agentic_ai_tee.Base.{
  ℕ, ◌-◌, max, Bool, true, false, Option, none, some, List, [], ◌∷◌, if◌then◌else◌, pos, Text,
  codes, Value, Items, nil, cons, Fields, end, field, int, str, list, dict,
}
use agentic_ai_tee.Base.Result.{Result, ok, err}
use agentic_ai_tee.Agent.Models.{
  ContentBlock, text_block, thinking_block, tool_use_block, tool_result_block, Content, plain,
  blocks, Message, LlmResponse, Exn, Stop, raised,
}
use agentic_ai_tee.Agent.Controller.State.{LlmRequest, Chunk, Llm}
use agentic_ai_tee.Agent.LlmClient.Convert.{block_to_dict, role_name}
use agentic_ai_tee.Agent.LlmClient.Chat.{field_items}

-- `filtered`: the blocks, without the thinking
unfoldable pub filtered : List ContentBlock → Items
filtered [] = nil
filtered (thinking_block t s ∷ bs) = filtered bs
filtered (b ∷ bs) = cons (dict (block_to_dict b)) (filtered bs)

abbrev pub content_value : Content → Value
content_value (plain t) = str t
content_value (blocks bs) = list (filtered bs)

unfoldable pub anthropic_message : Message → Fields
anthropic_message m =
    field (codes "role") (str (role_name m.role))
      (field (codes "content") (content_value m.content) end)

unfoldable pub anthropic_messages : List Message → Items
anthropic_messages [] = nil
anthropic_messages (m ∷ ms) = cons (dict (anthropic_message m)) (anthropic_messages ms)

unfoldable pub thinking_budget : ℕ → ℕ
thinking_budget max_tokens = max max_tokens 16_384

abbrev pub with_tools : List Fields → Fields → Fields
with_tools [] rest = rest
with_tools (tool ∷ tools) rest = field (codes "tools") (list (field_items (tool ∷ tools))) rest

unfoldable pub thinking_fields : LlmRequest → Fields
thinking_fields q =
    if q.enable_thinking
    then field (codes "thinking")
        (dict (
          field (codes "type") (str (codes "enabled"))
            (field (codes "budget_tokens") (int (pos (thinking_budget q.max_tokens - 4096))) end)))
        end
    else end

-- `kwargs`
unfoldable pub anthropic_kwargs : Text → LlmRequest → Fields
anthropic_kwargs model q = field (codes "model") (str model) (
    field (codes "max_tokens")
      (int (pos (if q.enable_thinking then thinking_budget q.max_tokens else q.max_tokens)))
      (field (codes "system") (str q.system) (
        field (codes "messages") (list (anthropic_messages q.messages))
          (with_tools q.tools (thinking_fields q)))))

-- A block of the response by its type; the signature of a thinking block may be missing.
pub data ApiBlock : Type 0 where
  api_text : Text → ApiBlock
  api_thinking : Text → Option Text → ApiBlock
  api_tool_use : Text → Text → Fields → ApiBlock
  other_block : ApiBlock

pub record ApiResponse : Type 0 where
  pub content : List ApiBlock
  pub input_tokens : ℕ
  pub output_tokens : ℕ
  pub stop_reason : Option Text

abbrev pub signature_of : Option Text → Text
signature_of none = []
signature_of (some s) = s

unfoldable pub response_blocks : List ApiBlock → List ContentBlock
response_blocks [] = []
response_blocks (api_text t ∷ bs) = text_block t ∷ response_blocks bs
response_blocks (api_thinking t s ∷ bs) = thinking_block t (signature_of s) ∷ response_blocks bs
response_blocks (api_tool_use id name input ∷ bs) =
    tool_use_block (record { id = id; name = name; input = input }) ∷ response_blocks bs
response_blocks (other_block ∷ bs) = response_blocks bs

unfoldable pub anthropic_response : ℕ → ApiResponse → LlmResponse
anthropic_response elapsed r = record {
  content = response_blocks r.content;
  input_tokens = r.input_tokens;
  output_tokens = r.output_tokens;
  latency_ms = elapsed;
  stop_reason = signature_of r.stop_reason;
}

-- `call`: the library raises, or gives what it streamed and the response.
module _ {S : Type 0} (create : Fields → S → Result Exn (List Chunk × ApiResponse) × S)
    (model : Text) (elapsed : ℕ) where
  unfoldable pub created :
      Result Exn (List Chunk × ApiResponse) → S → Result Stop LlmResponse × List Chunk × S
  created (err e) s = (err (raised e), [], s)
  created (ok (chunks, r)) s = (ok (anthropic_response elapsed r), chunks, s)

  unfoldable pub anthropic_call : Llm S
  anthropic_call q s = let (result, s') = create (anthropic_kwargs model q) s in created result s'
