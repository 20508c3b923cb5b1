-- ===== src/Agent/Controller/Loop/Messages.antt =====
-- The messages of the results and error events of controller.py.
use agentic_ai_tee.Base.{ℕ, ◌++◌, Text, codes, decimal}
use agentic_ai_tee.Tools.Router.{Format}

module _ (F : Format) where
  pub cost_event : ℕ → ℕ → Text
  cost_event current budget =
      codes "Cost budget exceeded: $" ++ (F.fixed4 current ++ (codes " >= $" ++ F.dollars budget))

  pub cost_summary : ℕ → ℕ → Text
  cost_summary current budget =
      codes "Cost budget exceeded ($"
      ++ (F.fixed4 current ++ (codes " >= $" ++ (F.dollars budget ++ codes ")")))

  pub timeout_event : ℕ → Text
  timeout_event timeout = codes "Task timed out after " ++ (F.seconds timeout ++ codes "s")

  pub timeout_summary : ℕ → ℕ → Text
  timeout_summary timeout steps =
      codes "Task timed out after "
      ++ (F.seconds timeout ++ (codes "s (" ++ (decimal steps ++ codes " steps completed)")))

pub max_steps_event : ℕ → Text
max_steps_event max_steps = codes "Max steps (" ++ (decimal max_steps ++ codes ") reached")

pub max_steps_summary : ℕ → Text
max_steps_summary max_steps =
    codes "Max steps (" ++ (decimal max_steps ++ codes ") reached without completion")

pub task_failed : Text → Text
task_failed message = codes "Task failed: " ++ message
