-- ===== src/Agent/LlmClient/Anthropic/Laws.antt =====
-- What Anthropic receives of the messages, read back.
use agentic_ai_tee.Base.{
  ◌≡◌, refl, ap, Bool, true, false, Option, none, some, List, [], ◌∷◌, if◌then◌else◌, Text, codes,
  text_eq, Value, Items, nil, cons, Fields, end, field, bool, str, list, dict, get_field,
}
use agentic_ai_tee.Base.Optional.{◌>>=◌}
use agentic_ai_tee.Agent.Models.{
  ContentBlock, text_block, thinking_block, tool_use_block, tool_result_block, Content, plain,
  blocks, Message, Role, user, assistant,
}
use agentic_ai_tee.Agent.LlmClient.Convert.{block_to_dict, role_name}
use agentic_ai_tee.Agent.LlmClient.Anthropic.{
  filtered, content_value, anthropic_message, anthropic_messages,
}

text_at : Fields → Text → Option Text
text_at d k = elim (get_field d k) [ some (str t) ↦ some t | _ ↦ none ]

dict_at : Fields → Text → Option Fields
dict_at d k = elim (get_field d k) [ some (dict e) ↦ some e | _ ↦ none ]

flag_at : Fields → Text → Bool
flag_at d k = elim (get_field d k) [ some (bool b) ↦ b | _ ↦ false ]

-- A block, by the documentation of the interface.
read_typed : Text → Fields → Option ContentBlock
unfolding text_at dict_at flag_at
read_typed type d =
    if text_eq type (codes "text")
    then (text_at d (codes "text") >>= λ t. some (text_block t))
    else if text_eq type (codes "tool_use")
    then (text_at d (codes "id") >>= λ id. text_at d (codes "name") >>= λ name.
        dict_at d (codes "input") >>= λ input.
        some (tool_use_block (record { id = id; name = name; input = input })))
    else if text_eq type (codes "tool_result")
    then (text_at d (codes "tool_use_id") >>= λ id. text_at d (codes "content") >>= λ t. some (
        tool_result_block
          (record { tool_use_id = id; content = t; is_error = flag_at d (codes "is_error") })))
    else none

read_block : Value → Option ContentBlock
unfolding read_typed
read_block (dict d) = text_at d (codes "type") >>= λ type. read_typed type d
read_block _ = none

read_blocks : Items → Option (List ContentBlock)
unfolding read_block
read_blocks nil = some []
read_blocks (cons v vs) = read_block v >>= λ b. read_blocks vs >>= λ bs. some (b ∷ bs)

read_content : Option Value → Option Content
unfolding read_blocks
read_content (some (str t)) = some (plain t)
read_content (some (list vs)) = read_blocks vs >>= λ bs. some (blocks bs)
read_content _ = none

read_role : Text → Option Role
read_role t =
    if text_eq t (codes "user")
    then some user
    else if text_eq t (codes "assistant")
    then some assistant
    else none

read_message : Value → Option Message
unfolding read_content read_role
read_message (dict d) = text_at d (codes "role") >>= λ t. read_role t >>= λ role.
    read_content (get_field d (codes "content")) >>= λ content.
    some (record { role = role; content = content })
read_message _ = none

unfoldable pub read_messages : Items → Option (List Message)
unfolding read_message
read_messages nil = some []
read_messages (cons v vs) = read_message v >>= λ m. read_messages vs >>= λ ms. some (m ∷ ms)

unfoldable pub unthinking : List ContentBlock → List ContentBlock
unthinking [] = []
unthinking (thinking_block t s ∷ bs) = unthinking bs
unthinking (b ∷ bs) = b ∷ unthinking bs

abbrev unthinking_content : Content → Content
unthinking_content (plain t) = plain t
unthinking_content (blocks bs) = blocks (unthinking bs)

unfoldable pub without_thinking : List Message → List Message
without_thinking [] = []
without_thinking (m ∷ ms) =
    record m { content = unthinking_content m.content } ∷ without_thinking ms

-- The flag is left out where it is false.
read_flag :
    (b : Bool) (id content : Text)
    → flag_at
        (field (codes "type") (str (codes "tool_result")) (
          field (codes "tool_use_id") (str id) (
            field
              (codes "content")
              (str content)
              (if b then field (codes "is_error") (bool true) end else end))))
        (codes "is_error")
      ≡ b
unfolding flag_at get_field text_eq
read_flag true id content = refl
read_flag false id content = refl

read_blocks-filtered : (bs : List ContentBlock) → read_blocks (filtered bs) ≡ some (unthinking bs)
unfolding read_blocks filtered unthinking block_to_dict get_field text_eq
read_blocks-filtered [] = refl
read_blocks-filtered (thinking_block t s ∷ bs) = read_blocks-filtered bs
read_blocks-filtered (text_block t ∷ bs) = rw (read_blocks-filtered bs) refl
read_blocks-filtered (tool_use_block u ∷ bs) = rw (read_blocks-filtered bs) refl
read_blocks-filtered (tool_result_block r ∷ bs) = rw (read_blocks-filtered bs) (
    ap (λ b. some (tool_result_block (record r { is_error = b }) ∷ unthinking bs))
      (read_flag r.is_error r.tool_use_id r.content))

read_content-value :
    (content : Content)
    → read_content (some (content_value content)) ≡ some (unthinking_content content)
unfolding read_content
read_content-value (plain t) = refl
read_content-value (blocks bs) = rw (read_blocks-filtered bs) refl

read_role-name : (role : Role) → read_role (role_name role) ≡ some role
unfolding read_role text_eq
read_role-name user = refl
read_role-name assistant = refl

-- Read back by the documentation of the interface, the messages that Anthropic is sent are those of the
-- request, with their roles, texts, tool calls, and tool results with the error flag, in order, and
-- nothing is left out but the thinking blocks.
pub read_messages-anthropic_messages :
    (ms : List Message) → read_messages (anthropic_messages ms) ≡ some (without_thinking ms)
unfolding read_messages anthropic_messages anthropic_message without_thinking get_field text_eq
read_messages-anthropic_messages [] = refl
read_messages-anthropic_messages (m ∷ ms) =
    rw (read_role-name m.role, read_content-value m.content, read_messages-anthropic_messages ms)
      refl
