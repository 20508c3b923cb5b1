-- ===== src/Agent/Controller/Turn/Tests.antt =====
-- A turn of a conversation, and a tool use that is refused.
use agentic_ai_tee.Base.{ℕ, ◌+◌, ◌≤◌, ◌≡◌, true, false, none, some, [], codes, end}
use agentic_ai_tee.Base.Coroutine.{return}
use agentic_ai_tee.Base.Dict
use agentic_ai_tee.Agent.Models.{ToolUse}
use agentic_ai_tee.Tools.Tests.{plain_format}
use agentic_ai_tee.Agent.Controller.State.{total_cost}
use agentic_ai_tee.Agent.Controller.Tests.{controller, fresh, client_bounded}
use agentic_ai_tee.Agent.Controller.Permission.{Policy}
use agentic_ai_tee.Agent.Controller.Turn.{run_conversation_turn}
use agentic_ai_tee.Agent.Controller.Turn.Laws.{run_conversation_turn_cost}

run_conversation_turn_cost_example :
    let (reply, c) =
      run_conversation_turn plain_format controller none
        (codes "Be brief.")
        (codes "t")
        5
        700
        300_000
        (codes "Echo.")
        []
        []
        fresh
        0 in
    (reply.1 ≤ 700 + 600) × (reply.1 ≡ total_cost c.steps)
run_conversation_turn_cost_example =
    run_conversation_turn_cost plain_format controller none (codes "Be brief.") (codes "t") 700 600
      client_bounded 5 300_000 (codes "Echo.") [] [] fresh 0

-- A policy that refuses every dangerous tool.
abbrev refusing : Policy ℕ
refusing = record {
  require_permission = true;
  callback = some (λ name args. return false);
  streaming = true;
}

abbrev use_echo : ToolUse
use_echo = record { id = codes "1"; name = codes "echo"; input = end }

abbrev use_bash : ToolUse
use_bash = record { id = codes "2"; name = codes "bash"; input = end }
