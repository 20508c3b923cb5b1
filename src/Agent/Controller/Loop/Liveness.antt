-- ===== src/Agent/Controller/Loop/Liveness.antt =====
-- When a task succeeds.
use agentic_ai_tee.Base.{ℕ, suc, ◌+◌, ◌*◌, ◌-◌, ◌≤◌, ◌<◌, ◌≡◌, true, Text}
use agentic_ai_tee.Base.Result.{ok, err}
use agentic_ai_tee.Agent.Models.{
  has_tool_use, ToolCall, LlmResponse, TaskRequest, Stop, response_cost,
}
use agentic_ai_tee.Tools.Router.{Format}
use agentic_ai_tee.Agent.Controller.State.{Controller, LlmRequest, total_cost}
use agentic_ai_tee.Agent.Controller.Loop.{or_default, default_max_steps, default_max_cost}
use agentic_ai_tee.Agent.Controller.Loop.View.{View}
use agentic_ai_tee.Agent.Controller.Retry.{attempt}
use agentic_ai_tee.Agent.Controller.Retry.Unstopped.{Returns}

module _ (F : Format) (sha3 : Text → Text) {L W : Type 0} (C : Controller L W) (task : TaskRequest)
    (system_prompt : Text) where
  abbrev max_steps : ℕ
  max_steps = or_default task.max_steps default_max_steps

  abbrev max_cost : ℕ
  max_cost = or_default task.budget_usd default_max_cost

  module _ (dearest : ℕ) (rank : L → ℕ)
      (answers : (q : LlmRequest) (l : L) (s : Stop) → (C.llm q l).0 ≡ err s → ⊥)
      (bounded : (q : LlmRequest) (l : L) (response : LlmResponse)
        → (C.llm q l).0 ≡ ok response
        → response_cost response ≤ dearest)
      (progress : (q : LlmRequest) (l : L) (response : LlmResponse)
        → (C.llm q l).0 ≡ ok response
        → has_tool_use response ≡ true
        → rank (C.llm q l).2 < rank l)
      (attempts : (call : ToolCall) → Returns (attempt F C.executor call))
      (sleeps : (ms : ℕ) (w : W) → (C.executor.sleep ms w).0 ≡ true)
      (affordable : (max_steps - 1) * dearest < max_cost) where
    -- The pass may still ask, and so may as many as the client needs, within the steps and the budget.
    Going : ℕ → View L → Type 0
    Going n v =
        (n + rank v.llm_state ≤ max_steps)
        × (total_cost v.steps + (max_steps - n) * dearest < max_cost)

    Answered : ℕ → LlmResponse → View L → Type 0
    Answered n response v =
        (total_cost v.steps + (max_steps - n) * dearest < max_cost)
        × (response_cost response ≤ dearest)
        × (has_tool_use response ≡ true → n + suc (rank v.llm_state) ≤ max_steps)
