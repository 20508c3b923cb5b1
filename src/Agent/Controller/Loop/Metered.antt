-- ===== src/Agent/Controller/Loop/Metered.antt =====
-- What a task's run uses of the model: its calls are bounded, and the steps account for every answer.
use agentic_ai_tee.Base.{ℕ, ◌+◌, ◌≤◌, ◌≡◌, ap, true, List, Text, arith}
use agentic_ai_tee.Base.Result.{Result, ok, err}
use agentic_ai_tee.Agent.Models.{LlmResponse, StepEvent, TaskRequest, Stop, response_cost}
use agentic_ai_tee.Tools.Router.{Format}
use agentic_ai_tee.Agent.Controller.State.{Controller, LlmRequest, total_cost}
use agentic_ai_tee.Agent.Controller.Loop.{run_task, or_default, default_max_steps, default_max_cost}
use agentic_ai_tee.Agent.Controller.Loop.Kept.{IsKept, run_task-Kept}
use agentic_ai_tee.Agent.Controller.Loop.Asked.{asked-Ends}
use agentic_ai_tee.Agent.Controller.Loop.Budget.{answered_cost, finished_cost}

-- The cost that a call of the model is charged: an answer's, and nothing for a call that fails.
abbrev pub charge : Result Stop LlmResponse → ℕ
charge (ok response) = response_cost response
charge (err s) = 0

module _ (F : Format) (sha3 : Text → Text) {L W : Type 0} (C : Controller L W) (task : TaskRequest)
    (system_prompt : Text) (meter : L → ℕ) where
  abbrev max_steps : ℕ
  max_steps = or_default task.max_steps default_max_steps

  abbrev max_cost : ℕ
  max_cost = or_default task.budget_usd default_max_cost

  module _ (counts : (q : LlmRequest) (l : L) → meter (C.llm q l).2 ≡ meter l + 1) where
    calls_kept :
        (used : ℕ)
        → IsKept F sha3 C task system_prompt max_steps max_cost
            (λ n v. (meter v.llm_state + 1 ≤ used + n) × (n ≤ max_steps + 1))
            (λ n response v. (meter v.llm_state ≤ used + n) × (n ≤ max_steps))
            (λ result v. meter v.llm_state ≤ used + max_steps)
            (λ s v. meter v.llm_state ≤ used + max_steps)
    calls_kept used = record {
      planned = λ n v early h left.
          asked-Ends F sha3 C task system_prompt _ _ n v
            (λ response e. (omega (arith, h.0, counts _ v.llm_state), early))
            (λ s e. omega (arith, h.0, early, counts _ v.llm_state));
      done = λ n response v k last. omega (arith, k.0, k.1);
      stopped = λ n response v w s k uses stops. omega (arith, k.0, k.1);
      ran = λ n response v os k uses e. (omega (arith, k.0), omega (arith, k.1));
      over = λ n v summary error_text h why. omega (arith, h.0, h.1);
    }

    -- If `meter` counts the client's calls, then a task calls the model at most `max_steps` times (or
    -- the default of 50), however it ends.
    pub run_task_calls :
        (events : List StepEvent) (l : L) (w : W)
        → meter (run_task F sha3 C task system_prompt events l w).1.llm_state ≤ meter l + max_steps
    run_task_calls events l w =
        run_task-Kept F sha3 C task system_prompt _ _ _ _
          (λ result v. meter v.llm_state ≤ meter l + max_steps) (calls_kept (meter l))
          (λ result v h. h) (λ s v summary error_text h. h) events l w (omega arith, omega arith)

  module _
      (charges : (q : LlmRequest) (l : L)
        → meter (C.llm q l).2 ≡ meter l + charge (C.llm q l).0) where
    charge_kept :
        (paid : ℕ)
        → IsKept F sha3 C task system_prompt max_steps max_cost
            (λ n v. paid + total_cost v.steps ≡ meter v.llm_state)
            (λ n response v.
              (paid + total_cost v.steps) + response_cost response ≡ meter v.llm_state)
            (λ result v. paid + result.total_cost_usd ≡ meter v.llm_state)
            (λ s v. paid + total_cost v.steps ≤ meter v.llm_state)
    charge_kept paid = record {
      planned = λ n v early h left.
          asked-Ends F sha3 C task system_prompt _ _ n v
            (λ response e. omega (arith, h, charges _ v.llm_state, ap charge e))
            (λ s e. omega (arith, h, charges _ v.llm_state, ap charge e));
      done = λ n response v k last. omega (arith, k, finished_cost n response v.steps);
      stopped = λ n response v w s k uses stops. omega (arith, k);
      ran =
          λ n response v os k uses e. omega (arith, k, answered_cost n response v.steps os uses e);
      over = λ n v summary error_text h why. h;
    }

    -- If `meter` adds up the costs of the client's answers, then a task's total never exceeds what the
    -- answers cost during the task, and a task that succeeds reports exactly that.
    pub run_task_charge :
        (events : List StepEvent) (l : L) (w : W)
        → let (result, r) = run_task F sha3 C task system_prompt events l w in
          (meter l + result.total_cost_usd ≤ meter r.llm_state)
          × (result.success ≡ true → meter l + result.total_cost_usd ≡ meter r.llm_state)
    run_task_charge events l w =
        run_task-Kept F sha3 C task system_prompt _ _ _ _
          (λ result v.
            (meter l + result.total_cost_usd ≤ meter v.llm_state)
            × (result.success ≡ true → meter l + result.total_cost_usd ≡ meter v.llm_state))
          (charge_kept (meter l)) (λ result v h. (omega (arith, h), λ _. h))
          (λ s v summary error_text h. (h, λ e. absurd (cc))) events l w (omega arith)
