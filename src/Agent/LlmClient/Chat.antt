-- ===== src/Agent/LlmClient/Chat.antt =====
-- What the clients of OpenAI-compatible interfaces share in enclave/agent/llm_client.py: the payload of
-- a call, and how a reply is read. A reply whose values have other types than the interface documents
-- is none, whether the code raises on it or passes such values on.
pub mod Laws
use agentic_ai_tee.Base.Optional.{◌>>=◌}
use agentic_ai_tee.Base.{
  ℕ, suc, ◌++◌, Bool, true, false, not, Option, none, some, List, [], ◌∷◌, if◌then◌else◌, is_empty,
  ℤ, pos, Text, codes, text_eq, Value, Items, nil, cons, Fields, end, field, none_value, int, str,
  list, dict, truthy, get_field_or,
}
use agentic_ai_tee.Agent.Models.{ContentBlock, text_block, tool_use_block, LlmResponse, Message}
use agentic_ai_tee.Agent.Controller.State.{LlmRequest}
use agentic_ai_tee.Agent.LlmClient.Convert.{
  ApiMessage, message_fields, convert_messages_to_openai, convert_tools_to_openai,
}

unfoldable pub field_items : List Fields → Items
field_items [] = nil
field_items (d ∷ ds) = cons (dict d) (field_items ds)

unfoldable pub message_items : List ApiMessage → Items
message_items [] = nil
message_items (m ∷ ms) = cons (dict (message_fields m)) (message_items ms)

module _ (dumps : Fields → Text) where
  -- `api_messages`: the system prompt in front
  unfoldable pub api_messages : LlmRequest → Items
  api_messages q =
      cons
        (dict (
          field (codes "role") (str (codes "system")) (field (codes "content") (str q.system) end)))
        (message_items (convert_messages_to_openai dumps q.messages))

  -- The fields behind those of the payload: the tools, if there are any, and with them `more`.
  unfoldable pub tool_fields : List Fields → Fields → Option Fields
  tool_fields [] more = some end
  tool_fields (tool ∷ tools) more = do
    converted ← convert_tools_to_openai (tool ∷ tools)
    some (field (codes "tools") (list (field_items converted)) more)

  -- `payload`, for the model
  unfoldable pub chat_payload : Text → Fields → LlmRequest → Option Fields
  chat_payload model more q = do
    tools ← tool_fields q.tools more
    some (
        field (codes "model") (str model) (
          field (codes "max_tokens") (int (pos q.max_tokens))
            (field (codes "messages") (list (api_messages q)) tools)))

abbrev pub as_dict : Value → Option Fields
as_dict (dict d) = some d
as_dict _ = none

abbrev pub as_text : Value → Option Text
as_text (str t) = some t
as_text _ = none

abbrev pub as_count : Value → Option ℕ
as_count (int (pos n)) = some n
as_count _ = none

abbrev pub as_items : Value → Option Items
as_items (list vs) = some vs
as_items _ = none

-- `choices[0] if choices else {}`
unfoldable pub first_choice : Value → Option Fields
first_choice (list (cons v vs)) = as_dict v
first_choice v = if truthy v then none else some end

-- `if text: content_blocks.append(TextBlock(text=text))`
unfoldable pub reply_text : Value → Option (List ContentBlock)
reply_text (str t) = some (if is_empty t then [] else text_block t ∷ [])
reply_text v = if truthy v then none else some []

-- the finish reason, where the source has the same chain in three clients
unfoldable pub stop_reason_of : Text → Text
stop_reason_of reason =
    if text_eq reason (codes "stop")
    then codes "end_turn"
    else if text_eq reason (codes "tool_calls")
    then codes "tool_use"
    else if text_eq reason (codes "length")
    then codes "max_tokens"
    else reason

unfoldable pub finish_reason : Value → Option Text
finish_reason (str t) = some (stop_reason_of t)
finish_reason v = if truthy v then none else some []

-- `loads` is `json.loads`; `fresh_id` is the id that a call without one gets, by its position.
module _ (loads : Text → Option Value) (fresh_id : ℕ → Text) where
  -- `args`: what is no JSON is {}.
  unfoldable pub call_arguments : Value → Option Fields
  call_arguments (str t) = elim (loads t) [ none ↦ some end | some v ↦ as_dict v ]
  call_arguments v = as_dict v

  unfoldable pub reply_call : ℕ → Value → Option ContentBlock
  reply_call i tc = do
    call ← as_dict tc
    func ← as_dict (get_field_or call (codes "function") (dict end))
    args ← call_arguments (get_field_or func (codes "arguments") (dict end))
    id ← as_text (get_field_or call (codes "id") (str (fresh_id i)))
    name ← as_text (get_field_or func (codes "name") (str []))
    some (tool_use_block (record { id = id; name = name; input = args }))

  -- `for tc in tool_calls`
  unfoldable pub reply_calls : ℕ → Items → Option (List ContentBlock)
  reply_calls i nil = some []
  reply_calls i (cons tc tcs) = do
    call ← reply_call i tc
    calls ← reply_calls (suc i) tcs
    some (call ∷ calls)

  -- `content_blocks` of the dict of a message
  unfoldable pub reply_blocks : Fields → Option (List ContentBlock)
  reply_blocks message = do
    texts ← reply_text (get_field_or message (codes "content") (str []))
    tool_calls ← as_items (get_field_or message (codes "tool_calls") (list nil))
    calls ← reply_calls 0 tool_calls
    some (texts ++ calls)

  -- The response that the data of a reply holds.
  unfoldable pub chat_response : ℕ → Value → Option LlmResponse
  chat_response elapsed reply = do
    body ← as_dict reply
    choice ← first_choice (get_field_or body (codes "choices") (list (cons (dict end) nil)))
    message ← as_dict (get_field_or choice (codes "message") (dict end))
    usage ← as_dict (get_field_or body (codes "usage") (dict end))
    content ← reply_blocks message
    reason ← finish_reason (get_field_or choice (codes "finish_reason") (str []))
    input_tokens ← as_count (get_field_or usage (codes "prompt_tokens") (int (pos 0)))
    output_tokens ← as_count (get_field_or usage (codes "completion_tokens") (int (pos 0)))
    some (record {
      content = content;
      input_tokens = input_tokens;
      output_tokens = output_tokens;
      latency_ms = elapsed;
      stop_reason = reason;
    })
