-- ===== src/Tools/Router.antt =====
-- enclave/tools/router.py: a tool call is looked up, validated, run under a timeout, and every end of
-- the run but a cancellation from outside becomes a ToolOutput. What `validate_args` raises is not
-- caught.
pub mod Laws
use agentic_ai_tee.Base.{
  ℕ, Bool, true, false, Option, none, some, List, [], ◌∷◌, ◌++◌, Text, codes, is_empty, ◌==◌,
  if◌then◌else◌, Value, none_value,
}
use agentic_ai_tee.Base.Result.{Result, ok, err}
use agentic_ai_tee.Agent.Models.{ToolCall, ToolOutput, Exn, Stop, raised, cancelled}
use agentic_ai_tee.Tools.Registry.{Tool, ToolRegistry, get_tool, names}

-- Python's ways to write values as text, which messages show.
pub record Format : Type 0 where
  -- `str(v)`
  pub str_value : Value → Text
  -- the `repr` of a list of texts
  pub repr_names : List Text → Text
  -- `{t}` for a time in seconds as a float, of so many milliseconds
  pub seconds : ℕ → Text
  -- `{c:.4f}` and `{c}` for a cost in dollars, of so many millionths
  pub fixed4 : ℕ → Text
  pub dollars : ℕ → Text

abbrev pub default_tool_timeout : ℕ
default_tool_timeout = 60_000

-- A failure with a message.
abbrev pub failure : Text → ℕ → ToolOutput
failure message elapsed = record {
  success = false;
  result = none_value;
  error = some message;
  latency_ms = elapsed;
}

-- `timeout or self._default_timeout`
abbrev pub effective_timeout : Option ℕ → ℕ → ℕ
effective_timeout none default = default
effective_timeout (some t) default = if t == 0 then default else t

module _ (F : Format) where
  pub unknown_tool : Text → List Text → Text
  unknown_tool name available =
      codes "Unknown tool '" ++ (name ++ (codes "'. Available tools: " ++ F.repr_names available))

  pub invalid_arguments : Text → Text
  invalid_arguments error = codes "Invalid arguments: " ++ error

  pub tool_timed_out : Text → ℕ → Text
  tool_timed_out name timeout =
      codes "Tool '" ++ (name ++ (codes "' timed out after " ++ (F.seconds timeout ++ codes "s")))

  pub tool_failed : Text → Exn → Text
  tool_failed name exc =
      codes "Tool '"
      ++ (name ++ (codes "' failed: " ++ (exc.type_name ++ (codes ": " ++ exc.message))))

  -- The `try` around the run.
  unfoldable pub finish : Text → ℕ → Result Stop ToolOutput → ℕ → Result Stop ToolOutput
  finish name timeout (ok result) elapsed = ok (record result { latency_ms = elapsed })
  finish name timeout (err cancelled) elapsed = err cancelled
  finish name timeout (err (raised exc)) elapsed =
      if exc.is_timeout
      then ok (failure (tool_timed_out name timeout) elapsed)
      else ok (failure (tool_failed name exc) elapsed)

  module _ {W : Type 0} where
    unfoldable pub execute : Tool W → ToolCall → ℕ → W → Result Stop ToolOutput × W
    execute tool call timeout w =
        let (r, elapsed, w') = tool.run timeout call.args w in
        (finish call.name timeout r elapsed, w')

    -- `if validation_error:`, so an empty error text passes.
    unfoldable pub validated :
        Tool W → ToolCall → ℕ → Result Exn (Option Text) → W → Result Stop ToolOutput × W
    validated tool call timeout (err exc) w = (err (raised exc), w)
    validated tool call timeout (ok none) w = execute tool call timeout w
    validated tool call timeout (ok (some error)) w =
        if is_empty error
        then execute tool call timeout w
        else (ok (failure (invalid_arguments error) 0), w)

    unfoldable pub dispatch :
        ToolRegistry W → ℕ → Option ℕ → ToolCall → W → Result Stop ToolOutput × W
    dispatch registry default_timeout timeout call w = elim (get_tool registry call.name) [
      | none ↦ (ok (failure (unknown_tool call.name (names registry)) 0), w)
      | some tool ↦
          validated tool call (effective_timeout timeout default_timeout)
            (tool.validate_args call.args) w
    ]
