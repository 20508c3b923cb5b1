-- ===== src/Tools/Registry.antt =====
-- enclave/tools/base.py: a tool, and the registry that looks tools up by name.
pub mod Laws
use agentic_ai_tee.Base.{
  ℕ, Bool, true, false, ◌&&◌, ◌||◌, Option, none, some, List, [], ◌∷◌, map, Text, Fields, leb, ◌==◌,
  if◌then◌else◌,
}
use agentic_ai_tee.Base.Result.{Result, ok, err}
use agentic_ai_tee.Base.Dict
use agentic_ai_tee.Base.Dict.{Dict, contains, keys, values}
use agentic_ai_tee.Agent.Models.{ToolOutput, Exn, Stop}

-- A subclass of BaseTool over the world `W` that tools act on. `validate_args` may raise; `run` is
-- the call under `asyncio.wait_for`, with the timeout, the time that it took, and the world after it.
pub record Tool (W : Type 0) : Type 0 where
  pub name : Text
  pub description : Text
  pub definition : Fields
  pub validate_args : Fields → Result Exn (Option Text)
  pub run : ℕ → Fields → W → Result Stop ToolOutput × ℕ × W

pub record ToolSpec (W : Type 0) : Type 0 where
  pub name : Text
  pub description : Text
  pub tool : Tool W

abbrev pub ToolRegistry : Type 0 → Type 0
ToolRegistry W = Dict (ToolSpec W)

-- The two `ValueError`s of `register`.
pub data RegisterError : Type 0 where
  not_snake_case : Text → RegisterError
  duplicate_name : Text → RegisterError

-- [a-z]
abbrev pub is_lower : ℕ → Bool
is_lower c = leb b'a' c && leb c b'z'

-- [a-z0-9_]
abbrev pub is_name_char : ℕ → Bool
is_name_char c = is_lower c || ((leb b'0' c && leb c b'9') || (c == b'_'))

-- `[a-z0-9_]*$`: Python's `$` also matches in front of a newline that ends the text.
unfoldable pub matches_tail : Text → Bool
matches_tail [] = true
matches_tail (c ∷ []) = is_name_char c || (c == 10)
matches_tail (c ∷ d ∷ t) = is_name_char c && matches_tail (d ∷ t)

-- `_NAME_PATTERN.match(name)`
unfoldable pub name_pattern : Text → Bool
name_pattern [] = false
name_pattern (c ∷ t) = is_lower c && matches_tail t

module _ {W : Type 0} where
  unfoldable pub register : ToolRegistry W → Tool W → Result RegisterError (ToolRegistry W)
  register tools tool =
      if name_pattern tool.name
      then (if contains tools tool.name
          then err (duplicate_name tool.name)
          else ok (
              Dict.put tools tool.name
                (record { name = tool.name; description = tool.description; tool = tool })))
      else err (not_snake_case tool.name)

  -- `ToolRegistry.get`
  unfoldable pub get_tool : ToolRegistry W → Text → Option (Tool W)
  get_tool tools name = elim (Dict.get tools name) [ none ↦ none | some spec ↦ some spec.tool ]

  unfoldable pub list_tools : ToolRegistry W → List (Tool W)
  list_tools tools = map (λ spec. spec.tool) (values tools)

  unfoldable pub names : ToolRegistry W → List Text
  names tools = keys tools

  unfoldable pub build_tool_definitions : ToolRegistry W → List Fields
  build_tool_definitions tools = map (λ spec. spec.tool.definition) (values tools)

  -- `register` for each of a list of tools, as `_register_tools` makes the calls
  unfoldable pub register_all :
      ToolRegistry W → List (Tool W) → Result RegisterError (ToolRegistry W)
  register_all tools [] = ok tools
  register_all tools (t ∷ ts) = elim (register tools t) [
    | ok tools' ↦ register_all tools' ts
    | err e ↦ err e
  ]
