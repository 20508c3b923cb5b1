-- ===== src/Agent/Controller/Loop/Budget.antt =====
-- What a task may cost: the cost guard and the step guard of `_run_step_loop`.
use agentic_ai_tee.Base.{
  ℕ, ◌+◌, ◌≤◌, ◌<◌, ◌≡◌, refl, ap, ◌∙◌, true, false, List, [], ◌∷◌, ◌++◌, sum_by-append, length,
  any, Text, arith,
}
use agentic_ai_tee.Base.Result.{ok}
use agentic_ai_tee.Agent.Models.{
  is_tool_use, ContentBlock, tool_use_block, text_block, thinking_block, tool_result_block,
  tool_uses, tool_use_blocks, has_tool_use, ToolUse, ToolOutput, LlmResponse, StepResult, StepEvent,
  TaskRequest, response_cost, step_cost,
}
use agentic_ai_tee.Tools.Router.{Format}
use agentic_ai_tee.Agent.Controller.State.{Controller, LlmRequest, total_cost}
use agentic_ai_tee.Agent.Controller.Loop.{
  run_task, tool_step, final_step, or_default, default_max_steps, default_max_cost,
}
use agentic_ai_tee.Agent.Controller.Loop.View.{View, tool_steps}
use agentic_ai_tee.Agent.Controller.Loop.Kept.{IsKept, run_task-Kept}
use agentic_ai_tee.Agent.Controller.Loop.Asked.{asked-Ends}

pub or_default_pos : (n d : ℕ) → 0 < d → 0 < or_default n d
or_default_pos n d h = ground arith

tool_steps_free :
    (n : ℕ) (response : LlmResponse) (bs : List ToolUse) (os : List ToolOutput)
    → total_cost (tool_steps n response false bs os) ≡ 0
unfolding tool_step
tool_steps_free n response (b ∷ bs) (o ∷ os) = omega (arith, tool_steps_free n response bs os)
tool_steps_free n response [] os = refl
tool_steps_free n response (b ∷ bs) [] = refl

some_use : (bs : List ContentBlock) → any is_tool_use bs ≡ true → 0 < length (tool_uses bs)
unfolding tool_uses
some_use [] h = absurd (cc)
some_use (tool_use_block u ∷ bs) h = omega arith
some_use (text_block t ∷ bs) h = some_use bs h
some_use (thinking_block t s ∷ bs) h = some_use bs h
some_use (tool_result_block r ∷ bs) h = some_use bs h

has_tool_use-uses :
    (response : LlmResponse) → has_tool_use response ≡ true → 0 < length (tool_use_blocks response)
unfolding has_tool_use tool_use_blocks
has_tool_use-uses response = some_use response.content

-- The steps of a response with tool uses cost what the response does.
tool_steps_cost :
    (n : ℕ) (response : LlmResponse) (bs : List ToolUse) (os : List ToolOutput)
    → 0 < length bs
    → length os ≡ length bs
    → total_cost (tool_steps n response true bs os) ≡ response_cost response
unfolding tool_step
tool_steps_cost n response [] os some e = absurd (omega arith)
tool_steps_cost n response (b ∷ bs) [] some e = absurd (omega arith)
tool_steps_cost n response (b ∷ bs) (o ∷ os) some e =
    omega (arith, tool_steps_free n response bs os)

pub answered_cost :
    (n : ℕ) (response : LlmResponse) (steps : List StepResult) (os : List ToolOutput)
    → has_tool_use response ≡ true
    → length os ≡ length (tool_use_blocks response)
    → total_cost (steps ++ tool_steps n response true (tool_use_blocks response) os)
      ≡ total_cost steps + response_cost response
answered_cost n response steps os uses e =
    sum_by-append step_cost steps _
    ∙ ap (λ c. total_cost steps + c)
        (tool_steps_cost n response _ os (has_tool_use-uses response uses) e)

pub finished_cost :
    (n : ℕ) (response : LlmResponse) (steps : List StepResult)
    → total_cost (steps ++ (final_step n response ∷ [])) ≡ total_cost steps + response_cost response
unfolding final_step
finished_cost n response steps =
    omega (arith, sum_by-append step_cost steps (final_step n response ∷ []))

module _ (F : Format) (sha3 : Text → Text) {L W : Type 0} (C : Controller L W) (task : TaskRequest)
    (system_prompt : Text) where
  abbrev max_steps : ℕ
  max_steps = or_default task.max_steps default_max_steps

  abbrev max_cost : ℕ
  max_cost = or_default task.budget_usd default_max_cost

  module _ (dearest : ℕ)
      (bounded : (q : LlmRequest) (l : L) (response : LlmResponse)
        → (C.llm q l).0 ≡ ok response
        → response_cost response ≤ dearest) where
    Below : View L → Type 0
    Below v = total_cost v.steps < max_cost + dearest

    budget_kept :
        IsKept F sha3 C task system_prompt max_steps max_cost
          (λ n v. Below v)
          (λ n response v. (total_cost v.steps < max_cost) × (response_cost response ≤ dearest))
          (λ result v.
            (result.total_cost_usd < max_cost + dearest)
            × (result.total_cost_usd ≡ total_cost result.steps))
          (λ s v. Below v)
    unfolding Below
    budget_kept = record {
      planned = λ n v early h left.
          asked-Ends F sha3 C task system_prompt _ _ n v
            (λ response e. (left, bounded _ _ response e)) (λ s e. h);
      done =
          λ n response v k last. (omega (arith, k.0, k.1, finished_cost n response v.steps), refl);
      stopped = λ n response v w s k uses stops. omega (arith, k.0);
      ran = λ n response v os k uses e.
          omega (arith, k.0, k.1, answered_cost n response v.steps os uses e);
      over = λ n v summary error_text h why. (h, refl);
    }

    -- If no response costs more than `dearest`, then the total cost of a task is below its budget (or
    -- the default of five dollars) plus `dearest`, however the task ends, and it is the sum over the
    -- steps of the result.
    pub run_task_budget :
        (events : List StepEvent) (l : L) (w : W)
        → let result = (run_task F sha3 C task system_prompt events l w).0 in
          (result.total_cost_usd < max_cost + dearest)
          × (result.total_cost_usd ≡ total_cost result.steps)
    unfolding Below
    run_task_budget events l w =
        run_task-Kept F sha3 C task system_prompt _ _ _ _
          (λ result v.
            (result.total_cost_usd < max_cost + dearest)
            × (result.total_cost_usd ≡ total_cost result.steps))
          budget_kept (λ result v h. h) (λ s v summary error_text h. (h, refl)) events l w
          (omega (arith, or_default_pos task.budget_usd default_max_cost (omega arith)))
