-- ===== src/Agent/LlmClient/Convert.antt =====
-- The mapping helpers of enclave/agent/llm_client.py: the blocks of a message for Anthropic, and the
-- messages and tools for the OpenAI-compatible interfaces. `dumps` is `json.dumps` of a dict.
pub mod Laws
use agentic_ai_tee.Base.{
  Bool, true, false, not, ◌&&◌, Option, none, some, List, [], ◌∷◌, ◌++◌, if◌then◌else◌, any,
  is_empty, Text, codes, text_eq, Value, Items, nil, cons, Fields, end, field, str, bool, list,
  dict, truthy, get_field, has_field,
}
use agentic_ai_tee.Base.Optional.{◌>>=◌}
use agentic_ai_tee.Agent.Models.{
  ContentBlock, text_block, thinking_block, tool_use_block, tool_result_block, Content, plain,
  blocks, Message, Role, user, assistant,
}

-- `_block_to_dict`
unfoldable pub block_to_dict : ContentBlock → Fields
block_to_dict (text_block t) =
    field (codes "type") (str (codes "text")) (field (codes "text") (str t) end)
block_to_dict (thinking_block t signature) =
    field (codes "type") (str (codes "thinking"))
      (field (codes "thinking") (str t) (field (codes "signature") (str signature) end))
block_to_dict (tool_use_block u) = field (codes "type") (str (codes "tool_use")) (
    field (codes "id") (str u.id)
      (field (codes "name") (str u.name) (field (codes "input") (dict u.input) end)))
block_to_dict (tool_result_block r) = field (codes "type") (str (codes "tool_result")) (
    field (codes "tool_use_id") (str r.tool_use_id) (
      field (codes "content") (str r.content)
        (if r.is_error then field (codes "is_error") (bool true) end else end)))

-- `parameters.pop(key, None)`
unfoldable pub without_field : Fields → Text → Fields
without_field end k = end
without_field (field j v d) k =
    let rest = without_field d k in if text_eq j k then rest else field j v rest

-- `"required" in parameters and not parameters["required"]`
abbrev requires_nothing : Fields → Bool
requires_nothing parameters = elim (get_field parameters (codes "required")) [
  | none ↦ false
  | some v ↦ not (truthy v)
]

unfoldable pub tool_parameters : Fields → Fields
tool_parameters parameters =
    if requires_nothing parameters then without_field parameters (codes "required") else parameters

-- A tool without one of the three keys raises, and so does one whose schema is no dict.
unfoldable pub openai_tool : Option Value → Option Value → Option Value → Option Fields
openai_tool (some (dict parameters)) (some name) (some description) = some (
    field (codes "type") (str (codes "function")) (
      field (codes "function")
        (dict (
          field (codes "name") name (
            field (codes "description") description
              (field (codes "parameters") (dict (tool_parameters parameters)) end))))
        end))
openai_tool _ _ _ = none

unfoldable pub convert_tool : Fields → Option Fields
convert_tool tool =
    openai_tool (get_field tool (codes "input_schema")) (get_field tool (codes "name"))
      (get_field tool (codes "description"))

-- `_convert_tools_to_openai`
unfoldable pub convert_tools_to_openai : List Fields → Option (List Fields)
convert_tools_to_openai [] = some []
convert_tools_to_openai (tool ∷ tools) = do
  converted ← convert_tool tool
  rest ← convert_tools_to_openai tools
  some (converted ∷ rest)

-- A tool call of an assistant's message: its id, the function's name, and its arguments as JSON.
pub record ApiCall : Type 0 where
  pub id : Text
  pub name : Text
  pub arguments : Text

-- A dict of the messages for the interface, by its keys.
pub data ApiMessage : Type 0 where
  -- {"role", "content"}
  text_message : Role → Text → ApiMessage
  -- {"role": "assistant"} with "content", if any, and "tool_calls", if any
  assistant_message : Option Text → List ApiCall → ApiMessage
  -- {"role": "tool", "tool_call_id", "content"}
  tool_message : Text → Text → ApiMessage
  -- {"role": "user", "content": […]} with parts of type "text"
  user_parts : List Text → ApiMessage

-- The dicts themselves.
unfoldable pub call_fields : ApiCall → Fields
call_fields c = field (codes "id") (str c.id) (
    field (codes "type") (str (codes "function")) (
      field (codes "function")
        (dict (field (codes "name") (str c.name) (field (codes "arguments") (str c.arguments) end)))
        end))

unfoldable pub call_items : List ApiCall → Items
call_items [] = nil
call_items (c ∷ cs) = cons (dict (call_fields c)) (call_items cs)

abbrev with_content : Option Text → Fields → Fields
with_content none d = d
with_content (some t) d = field (codes "content") (str t) d

abbrev with_tool_calls : List ApiCall → Fields
with_tool_calls [] = end
with_tool_calls (c ∷ cs) = field (codes "tool_calls") (list (call_items (c ∷ cs))) end

abbrev pub role_name : Role → Text
role_name user = codes "user"
role_name assistant = codes "assistant"

unfoldable pub part_items : List Text → Items
part_items [] = nil
part_items (t ∷ ts) =
    cons (dict (field (codes "type") (str (codes "text")) (field (codes "text") (str t) end)))
      (part_items ts)

unfoldable pub message_fields : ApiMessage → Fields
message_fields (text_message role t) =
    field (codes "role") (str (role_name role)) (field (codes "content") (str t) end)
message_fields (assistant_message content tool_calls) =
    field (codes "role") (str (codes "assistant"))
      (with_content content (with_tool_calls tool_calls))
message_fields (tool_message id content) =
    field (codes "role") (str (codes "tool"))
      (field (codes "tool_call_id") (str id) (field (codes "content") (str content) end))
message_fields (user_parts ts) =
    field (codes "role") (str (codes "user")) (field (codes "content") (list (part_items ts)) end)

-- `text_content`: the texts, one after the other
unfoldable pub joined_text : List ContentBlock → Text
joined_text [] = []
joined_text (text_block t ∷ bs) = t ++ joined_text bs
joined_text (_ ∷ bs) = joined_text bs

module _ (dumps : Fields → Text) where
  unfoldable pub api_calls : List ContentBlock → List ApiCall
  api_calls [] = []
  api_calls (tool_use_block u ∷ bs) =
      record { id = u.id; name = u.name; arguments = dumps u.input } ∷ api_calls bs
  api_calls (_ ∷ bs) = api_calls bs

  -- The content is left out where there are tool calls and no text.
  unfoldable pub assistant_to_api : List ContentBlock → ApiMessage
  assistant_to_api bs =
      let text = joined_text bs in
      let tool_calls = api_calls bs in
      assistant_message (if is_empty text && not (is_empty tool_calls) then none else some text)
        tool_calls

abbrev pub is_tool_result : ContentBlock → Bool
is_tool_result (tool_result_block r) = true
is_tool_result _ = false

-- The user's blocks, where one of them is a tool result.
unfoldable pub results_to_api : List ContentBlock → List ApiMessage
results_to_api [] = []
results_to_api (tool_result_block r ∷ bs) = tool_message r.tool_use_id r.content ∷ results_to_api bs
results_to_api (text_block t ∷ bs) = text_message user t ∷ results_to_api bs
results_to_api (_ ∷ bs) = results_to_api bs

unfoldable pub text_parts : List ContentBlock → List Text
text_parts [] = []
text_parts (text_block t ∷ bs) = t ∷ text_parts bs
text_parts (_ ∷ bs) = text_parts bs

unfoldable pub user_to_api : List ContentBlock → List ApiMessage
user_to_api bs =
    if any is_tool_result bs then results_to_api bs else user_parts (text_parts bs) ∷ []

module _ (dumps : Fields → Text) where
  unfoldable pub message_to_api : Role → Content → List ApiMessage
  message_to_api role (plain t) = text_message role t ∷ []
  message_to_api assistant (blocks bs) = assistant_to_api dumps bs ∷ []
  message_to_api user (blocks bs) = user_to_api bs

  -- `_convert_messages_to_openai`
  unfoldable pub convert_messages_to_openai : List Message → List ApiMessage
  convert_messages_to_openai [] = []
  convert_messages_to_openai (m ∷ ms) =
      message_to_api m.role m.content ++ convert_messages_to_openai ms
