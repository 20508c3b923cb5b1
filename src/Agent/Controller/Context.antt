-- ===== src/Agent/Controller/Context.antt =====
-- The estimates of token counts and the compaction of a history, of controller.py.
pub mod Laws
use agentic_ai_tee.Base.{
  ℕ, ◌+◌, ◌-◌, ◌/◌, max, Bool, true, false, Option, none, some, List, [], ◌∷◌, ◌++◌, map, ltb, leb,
  if◌then◌else◌, length, take, drop, last_n, is_empty, sum_by, Text, codes, join, newline, strip,
  decimal, Value, dict,
}
use agentic_ai_tee.Agent.Models.{
  ContentBlock, text_block, thinking_block, tool_use_block, tool_result_block, Content, plain,
  blocks, Message, Role, user, assistant,
}
use agentic_ai_tee.Tools.Router.{Format}

abbrev pub chars_per_token : ℕ
chars_per_token = 4

abbrev pub min_recent_messages : ℕ
min_recent_messages = 6

-- `_estimate_tokens`
unfoldable pub estimate_tokens : Text → ℕ
estimate_tokens text = max 1 (length text / chars_per_token)

-- `messages[1:-MIN_RECENT_MESSAGES]`, of more messages than that
abbrev pub middle_messages : List Message → List Message
middle_messages messages = drop 1 (take (length messages - min_recent_messages) messages)

abbrev pub role_name : Role → Text
role_name user = codes "user"
role_name assistant = codes "assistant"

module _ (F : Format) where
  unfoldable pub estimate_block_tokens : ContentBlock → ℕ
  estimate_block_tokens (text_block t) = estimate_tokens t
  estimate_block_tokens (thinking_block t s) = estimate_tokens t
  estimate_block_tokens (tool_result_block r) = estimate_tokens r.content
  estimate_block_tokens (tool_use_block u) =
      estimate_tokens (F.str_value (dict u.input)) + estimate_tokens u.name

  unfoldable pub estimate_content_tokens : Content → ℕ
  estimate_content_tokens (plain t) = estimate_tokens t + 4
  estimate_content_tokens (blocks bs) = 4 + sum_by estimate_block_tokens bs

  -- `_estimate_message_tokens`
  abbrev pub estimate_message_tokens : Message → ℕ
  estimate_message_tokens m = estimate_content_tokens m.content

  -- `_estimate_history_tokens`
  unfoldable pub estimate_history_tokens : Text → List Message → ℕ
  estimate_history_tokens system_prompt messages =
      estimate_tokens system_prompt + sum_by estimate_message_tokens messages

  -- The summary of one block in `_compact_history`; a block may have none.
  unfoldable pub block_summary : ContentBlock → List Text
  block_summary (text_block t) = if is_empty t then [] else take 100 t ∷ []
  block_summary (thinking_block t s) = []
  block_summary (tool_use_block u) =
      (codes "[tool:"
        ++ (u.name ++ (codes "(" ++ (take 80 (F.str_value (dict u.input)) ++ codes ")]"))))
      ∷ []
  block_summary (tool_result_block r) =
      (codes "[result:"
        ++ ((if r.is_error then codes "error" else codes "ok")
            ++ (codes ":" ++ (take 80 r.content ++ codes "]"))))
      ∷ []

  unfoldable pub block_summaries : List ContentBlock → List Text
  block_summaries [] = []
  block_summaries (b ∷ bs) = block_summary b ++ block_summaries bs

  unfoldable pub content_summary : Content → Text
  content_summary (plain t) = take 200 t
  content_summary (blocks bs) = take 200 (join (codes " | ") (block_summaries bs))

  unfoldable pub summary_parts : List Message → List Text
  summary_parts [] = []
  summary_parts (m ∷ ms) =
      let rest = summary_parts ms in
      let text = content_summary m.content in
      if is_empty (strip text)
      then rest
      else (codes "[" ++ (role_name m.role ++ (codes "]: " ++ text))) ∷ rest

  unfoldable pub summary_text : List Text → Text
  summary_text parts =
      (codes
          "[CONTEXT COMPACTED — Earlier conversation summarized to save context window space]\n\n"
        ++ join newline (take 30 parts))
      ++ (if ltb 30 (length parts)
          then codes "\n... and " ++ (decimal (length parts - 30) ++ codes " more exchanges")
          else [])

  unfoldable pub summary_message : List Message → Message
  summary_message middle = record {
    role = user;
    content = plain (summary_text (summary_parts middle));
  }

  -- `_compact_history`: `target_tokens - system_tokens` may be negative, so the sum is compared.
  unfoldable pub compact_history : List Message → ℕ → ℕ → List Message
  compact_history [] target_tokens system_tokens = []
  compact_history (first ∷ later) target_tokens system_tokens =
      let messages = first ∷ later in
      if leb (length messages) min_recent_messages
      then messages
      else if leb (sum_by estimate_message_tokens messages + system_tokens) target_tokens
      then messages
      else if is_empty (middle_messages messages)
      then messages
      else first ∷ summary_message (middle_messages messages) ∷ last_n min_recent_messages messages
