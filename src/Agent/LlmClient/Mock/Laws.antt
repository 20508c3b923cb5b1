-- ===== src/Agent/LlmClient/Mock/Laws.antt =====
-- A task that the mock client runs without a script.
use agentic_ai_tee.Base.{
  ℕ, ◌≤◌, ◌<◌, ◌≡◌, ◌⊎◌, refl, ap, inl, inr, true, false, List, [], ◌∷◌, ◌++◌, length, Text, codes,
  newline, arith,
}
use agentic_ai_tee.Agent.Models.{
  LlmResponse, StepEvent, TaskRequest, has_tool_use, response_text, block_texts,
}
use agentic_ai_tee.Tools.Router.{Format}
use agentic_ai_tee.Agent.Controller.State.{Controller, total_cost}
use agentic_ai_tee.Agent.Controller.Loop.{
  run_task, final_step, or_default, default_max_steps, default_max_cost,
}
use agentic_ai_tee.Agent.Controller.Loop.View.{View}
use agentic_ai_tee.Agent.Controller.Loop.Kept.{IsKept, run_task-Kept}
use agentic_ai_tee.Agent.Controller.Loop.Budget.{or_default_pos}
use agentic_ai_tee.Agent.LlmClient.Mock.{
  MockLlmClient, new_mock, mock_call, mock_response, scripted,
}

abbrev pub end_text : Text
end_text = codes "All steps complete." ++ (newline ++ codes "Task completed successfully.")

module _ (F : Format) (sha3 : Text → Text) {W : Type 0} (C : Controller MockLlmClient W)
    (mock : C.llm ≡ mock_call) (task : TaskRequest) (system_prompt : Text) where
  abbrev Start : ℕ → View MockLlmClient → Type 0
  Start n v = (n ≡ 1) × (v.steps ≡ []) × (v.llm_state ≡ new_mock [])

  abbrev Ended : ℕ → LlmResponse → View MockLlmClient → Type 0
  Ended n response v =
      (response_text response ≡ end_text) × (has_tool_use response ≡ false) × (v.steps ≡ [])

  nothing_over :
      (n : ℕ) (v : View MockLlmClient)
      → Start n v
      → (or_default task.max_steps default_max_steps < n)
        ⊎ (or_default task.budget_usd default_max_cost ≤ total_cost v.steps)
      → ⊥
  nothing_over n v h (inl past) =
      omega (arith, h.0, past, or_default_pos task.max_steps default_max_steps (omega arith))
  nothing_over n v h (inr spent) = omega (
    arith,
    spent,
    ap total_cost h.1,
    or_default_pos task.budget_usd default_max_cost (omega arith),
  )

  mock_kept :
      IsKept F sha3 C task system_prompt
        (or_default task.max_steps default_max_steps)
        (or_default task.budget_usd default_max_cost)
        Start
        Ended
        (λ result v.
          (result.success ≡ true) × (result.summary ≡ end_text) × (length result.steps ≡ 1))
        (λ s v. ⊥)
  unfolding mock_call mock_response scripted new_mock response_text has_tool_use block_texts
  mock_kept = record {
    planned = λ n v early h left. rw (mock, h.2) (refl, refl, h.1);
    done = λ n response v k last.
        (refl, k.0, ap (λ ss. length (ss ++ (final_step n response ∷ []))) k.2);
    stopped = λ n response v w s k uses stops. absurd (cc);
    ran = λ n response v os k uses e. absurd (cc);
    over = λ n v summary error_text h why. absurd (nothing_over n v h why);
  }

  -- The mock client ends a task for which it has no script at once: whatever the task, it succeeds in
  -- one step, with the standard summary.
  pub run_task_mock :
      (events : List StepEvent) (w : W)
      → let result = (run_task F sha3 C task system_prompt events (new_mock []) w).0 in
        (result.success ≡ true) × (result.summary ≡ end_text) × (length result.steps ≡ 1)
  run_task_mock events w =
      run_task-Kept F sha3 C task system_prompt _ _ _ _
        (λ result v.
          (result.success ≡ true) × (result.summary ≡ end_text) × (length result.steps ≡ 1))
        mock_kept (λ result v h. h) (λ s v summary error_text h. absurd h) events (new_mock []) w
        (refl, refl, refl)
