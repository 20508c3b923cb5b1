-- ===== src/Agent/Controller/Output.antt =====
-- The truncation of tool outputs and the preview of tool arguments, of controller.py.
pub mod Laws
use agentic_ai_tee.Base.{
  ℕ, ◌+◌, ◌-◌, Bool, true, false, ◌||◌, List, [], ◌∷◌, ◌++◌, leb, ltb, if◌then◌else◌, length, take,
  drop, last_n, Text, codes, text_eq, one_of, grouped, Value, Fields, end, field,
}
use agentic_ai_tee.Tools.Router.{Format}

abbrev pub max_tool_output_chars : ℕ
max_tool_output_chars = 30_000

abbrev pub truncation_keep_head : ℕ
truncation_keep_head = 10_000

abbrev pub truncation_keep_tail : ℕ
truncation_keep_tail = 10_000

-- The line that stands for what is left out.
unfoldable pub truncation_mark : ℕ → Text
truncation_mark truncated_chars =
    codes "\n\n[...truncated " ++ (grouped truncated_chars ++ codes " characters...]\n\n")

-- `_truncate_output`
unfoldable pub truncate_output : Text → Text
truncate_output output =
    if leb (length output) max_tool_output_chars
    then output
    else let truncated_chars = length output - truncation_keep_head - truncation_keep_tail in
      take truncation_keep_head output
      ++ (truncation_mark truncated_chars ++ last_n truncation_keep_tail output)

-- `key in ("content", "new_str", "old_str", "code")`
unfoldable pub is_large_key : Text → Bool
is_large_key key =
    one_of key (codes "content" ∷ codes "new_str" ∷ codes "old_str" ∷ codes "code" ∷ [])

-- `key in ("command",)`
unfoldable pub is_command_key : Text → Bool
is_command_key key = text_eq key (codes "command")

-- The preview of one argument.
unfoldable pub preview_value : Text → Text → Text
preview_value key value =
    if is_large_key key
    then (if ltb 100 (length value) then take 100 value ++ codes "..." else value)
    else if is_command_key key
    then (if ltb 200 (length value) then take 200 value else value)
    else (if ltb 150 (length value) then take 150 value else value)

module _ (F : Format) where
  -- `_safe_args_preview`: each key of a dict stands there once, so the preview's do too.
  unfoldable pub safe_args_preview : Fields → List (Text × Text)
  safe_args_preview end = []
  safe_args_preview (field key value rest) =
      (key, preview_value key (F.str_value value)) ∷ safe_args_preview rest
