-- ===== src/Tools/Tests.antt =====
-- A format, tools that count their runs, and the theorems on the registry and the router for them.
use agentic_ai_tee.Base.{
  ℕ, zero, suc, ◌≡◌, ◌≢◌, ◌⊎◌, ◌↔◌, refl, sym, ◌∙◌, arith, true, false, none, some, [], ◌∷◌, ◌++◌,
  Text, codes, text_eq, join, newline, decimal, Value, str, Fields, end,
}
use agentic_ai_tee.Base.Result.{Result, ok, err}
use agentic_ai_tee.Base.Dict
use agentic_ai_tee.Agent.Models.{ToolCall, ToolOutput, Exn, Stop, raised}
use agentic_ai_tee.Tools.Registry.{
  Tool, ToolRegistry, register, get_tool, register_all, name_pattern, matches_tail,
}
use agentic_ai_tee.Tools.Registry.Laws.{
  IsRegistry, IsSnakeCase, register-IsRegistry, name_pattern_iff,
}
use agentic_ai_tee.Tools.Router.{Format, dispatch, validated, execute, finish}
use agentic_ai_tee.Tools.Router.Laws.{Passes, Stops, dispatch_guarded, dispatch-Stops}

abbrev value_text : Value → Text
value_text (str t) = t
value_text _ = codes "value"

abbrev pub plain_format : Format
plain_format = record {
  str_value = value_text;
  repr_names = join (codes ", ");
  seconds = decimal;
  fixed4 = decimal;
  dollars = decimal;
}

abbrev pub echoed : ToolOutput
echoed = record { success = true; result = str (codes "hi"); error = none; latency_ms = 0 }

abbrev pub busy : Exn
busy = record { type_name = codes "OSError"; message = codes "busy"; is_timeout = false }

-- The first run fails; the world counts the runs.
abbrev echo_run : ℕ → Fields → ℕ → Result Stop ToolOutput × ℕ × ℕ
echo_run limit args zero = (err (raised busy), 3, 1)
echo_run limit args (suc n) = (ok echoed, 5, suc (suc n))

abbrev pub echo_tool : Tool ℕ
echo_tool = record {
  name = codes "echo";
  description = codes "Echoes.";
  definition = end;
  validate_args = λ args. ok none;
  run = echo_run;
}

-- A tool whose validation raises.
abbrev rash_tool : Tool ℕ
rash_tool = record {
  name = codes "rash";
  description = codes "Raises.";
  definition = end;
  validate_args = λ args. err busy;
  run = echo_run;
}

abbrev pub call_echo : ToolCall
call_echo = record { name = codes "echo"; args = end }

abbrev call_rash : ToolCall
call_rash = record { name = codes "rash"; args = end }

abbrev pub both : ToolRegistry ℕ
both =
    (codes "echo", record { name = codes "echo"; description = codes "Echoes."; tool = echo_tool })
    ∷ (
      codes "rash",
      record { name = codes "rash"; description = codes "Raises."; tool = rash_tool },
    )
    ∷ []

abbrev only_echo : ToolRegistry ℕ
only_echo =
    (codes "echo", record { name = codes "echo"; description = codes "Echoes."; tool = echo_tool })
    ∷ []

register_both : register_all [] (echo_tool ∷ rash_tool ∷ []) ≡ ok both
unfolding register_all register name_pattern matches_tail text_eq Dict.get Dict.put
register_both = refl

register_rash : register only_echo rash_tool ≡ ok both
unfolding register name_pattern matches_tail text_eq Dict.get Dict.put
register_rash = refl

register_echo : register [] echo_tool ≡ ok only_echo
unfolding register name_pattern matches_tail text_eq Dict.get Dict.put
register_echo = refl

only_echo-IsRegistry : IsRegistry only_echo
only_echo-IsRegistry =
    register-IsRegistry [] only_echo echo_tool (record { unique = tt; named = tt }) register_echo

name_pattern_iff_example : (name_pattern (codes "echo\n") ≡ true) ↔ (
    IsSnakeCase (codes "echo\n") ⊎ ((m : Text) × (codes "echo\n" ≡ m ++ newline) × IsSnakeCase m))
name_pattern_iff_example = name_pattern_iff (codes "echo\n")

-- A run that raises, and one that returns.
dispatch_first : (dispatch plain_format both 60_000 none call_echo 0).1 ≡ 1
unfolding dispatch validated execute get_tool text_eq Dict.get
dispatch_first = refl

dispatch_moves : (dispatch plain_format both 60_000 none call_echo 0).1 ≢ 0
dispatch_moves e = omega (arith, sym dispatch_first ∙ e)

dispatch_guarded_example :
    (tool : Tool ℕ) × (get_tool both (codes "echo") ≡ some tool)
    × Passes (tool.validate_args end)
    × ((dispatch plain_format both 60_000 none call_echo 0).1 ≡ (tool.run 60_000 end 0).2)
dispatch_guarded_example = dispatch_guarded plain_format both 60_000 none call_echo 0 dispatch_moves

dispatch_rash : (dispatch plain_format both 60_000 none call_rash 0).0 ≡ err (raised busy)
unfolding dispatch validated execute get_tool text_eq Dict.get
dispatch_rash = refl

dispatch-Stops_example :
    (tool : Tool ℕ) × (get_tool both (codes "rash") ≡ some tool)
    × Stops plain_format tool call_rash 60_000 0 (tool.validate_args end) (raised busy)
dispatch-Stops_example =
    dispatch-Stops plain_format both 60_000 none call_rash 0 (raised busy) dispatch_rash

abbrev echoed_late : ToolOutput
echoed_late = record echoed { latency_ms = 5 }

dispatch_echo : (dispatch plain_format both 60_000 none call_echo 1).0 ≡ ok echoed_late
unfolding dispatch validated execute finish get_tool text_eq Dict.get
dispatch_echo = refl
