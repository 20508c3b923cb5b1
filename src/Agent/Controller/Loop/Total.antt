-- ===== src/Agent/Controller/Loop/Total.antt =====
-- What every result of a task has: its id, and the sum of its steps' costs.
use agentic_ai_tee.Base.{ℕ, ◌≡◌, refl, List, Text}
use agentic_ai_tee.Agent.Models.{StepEvent, TaskRequest, TaskResult}
use agentic_ai_tee.Tools.Router.{Format}
use agentic_ai_tee.Agent.Controller.State.{Controller, total_cost}
use agentic_ai_tee.Agent.Controller.Loop.{run_task}
use agentic_ai_tee.Agent.Controller.Loop.Kept.{IsKept, run_task-Kept}
use agentic_ai_tee.Agent.Controller.Loop.Asked.{asked-Ends}

module _ (F : Format) (sha3 : Text → Text) {L W : Type 0} (C : Controller L W) (task : TaskRequest)
    (system_prompt : Text) where
  -- A result of this task, whose total is that of its steps.
  abbrev pub IsSummed : TaskResult → Type 0
  IsSummed result =
      (result.task_id ≡ task.task_id) × (result.total_cost_usd ≡ total_cost result.steps)

  summing :
      (max_steps max_cost : ℕ)
      → IsKept F sha3 C task system_prompt max_steps max_cost
          (λ n v. Unit {0})
          (λ n response v. Unit {0})
          (λ result v. IsSummed result)
          (λ s v. Unit {0})
  summing max_steps max_cost = record {
    planned = λ n v early h left.
        asked-Ends F sha3 C task system_prompt _ _ n v (λ response e. tt) (λ s e. tt);
    done = λ n response v k last. (refl, refl);
    stopped = λ n response v w s k uses stops. tt;
    ran = λ n response v os k uses e. tt;
    over = λ n v summary error_text h why. (refl, refl);
  }

  pub run_task-IsSummed :
      (events : List StepEvent) (l : L) (w : W)
      → IsSummed (run_task F sha3 C task system_prompt events l w).0
  run_task-IsSummed events l w =
      run_task-Kept F sha3 C task system_prompt _ _ _ _ (λ result v. IsSummed result) (summing _ _)
        (λ result v h. h) (λ s v summary error_text h. (refl, refl)) events l w tt
