-- ===== src/Service/Tasks/Laws.antt =====
-- What a task leaves in the database, and what a request that is refused leaves as it was.
use agentic_ai_tee.Base.{Bool, false, not, ◌&&◌, Option, none, some, is_empty, is_some, Text}
use mathlib.Core.Option
use agentic_ai_tee.Agent.Models.{TaskRequest, TaskResult}
use agentic_ai_tee.Agent.Controller.State.{Controller}
use agentic_ai_tee.Agent.Controller.Loop.{run_task}
use agentic_ai_tee.Memory.StateDb.{get_task}
use agentic_ai_tee.Tools.Router.{Format}
use agentic_ai_tee.Service.State.{State}
use agentic_ai_tee.Service.Tasks.{Outside, Times}

-- The two handlers' parts of a completed task: its row and its costs, in the end.
module _ (O : Outside) (F : Format) (sha3 : Text → Text) {L W : Type 0} (C : Controller L W)
    (system_prompt : TaskRequest → Text) (times : Times) where
  abbrev pub result_of : TaskRequest → State L W → TaskResult
  result_of task s = (run_task F sha3 C task (system_prompt task) s.events s.llm_state s.world).0

  -- Whether the handler takes a request on.
  abbrev pub accepts : State L W → Option TaskRequest → Bool
  accepts s none = false
  accepts s (some task) =
      not (is_empty task.description) && not (is_some (get_task task.task_id s.db))
