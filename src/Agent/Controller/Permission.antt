-- ===== src/Agent/Controller/Permission.antt =====
-- `_check_permission` of controller.py, and the tool uses of a conversation's step, each of which asks
-- before it is dispatched. They run together, so a check is one move of a tool use among the others'.
pub mod Laws
use agentic_ai_tee.Base.{
  ℕ, Bool, true, false, ◌&&◌, Option, none, some, List, [], ◌∷◌, ◌++◌, map, if◌then◌else◌, Text,
  codes, one_of, str, Fields,
}
use agentic_ai_tee.Base.Result.{Result, ok, err}
use agentic_ai_tee.Base.Coroutine.{Coroutine, return, ◌>>=◌}
use agentic_ai_tee.Agent.Models.{
  ToolUse, ToolOutput, StepEvent, permission_request, Stop, raised, cancelled,
}
use agentic_ai_tee.Tools.Router.{Format}
use agentic_ai_tee.Agent.Controller.Gather.{run_jobs}
use agentic_ai_tee.Agent.Controller.Output.{safe_args_preview}
use agentic_ai_tee.Agent.Controller.Retry.{Executor, Job, start, move, settle}
use agentic_ai_tee.Agent.Controller.Loop.{start_call}

-- `DANGEROUS_TOOLS`
unfoldable pub is_dangerous : Text → Bool
is_dangerous name =
    one_of name (
      codes "bash" ∷ codes "write_file" ∷ codes "edit_file" ∷ codes "multi_edit" ∷ codes "git" ∷ [])

-- The permission callback: it answers, raises, or is cancelled.
abbrev pub Callback : Type 0 → Type 0
Callback W = Text → Fields → Coroutine Stop W Bool

-- What the checks read: whether permission mode is on, the callback, and whether events are queued.
pub record Policy (W : Type 0) : Type 0 where
  pub require_permission : Bool
  pub callback : Option (Callback W)
  pub streaming : Bool

-- The world of the tools with the events so far.
abbrev pub Scene : Type 0 → Type 0
Scene W = List StepEvent × W

-- A tool use that is yet to ask, or on its way.
pub data Call : Type 0 where
  asking : ToolUse → Call
  running : Job → Call

abbrev pub denied : ToolUse → ToolOutput
denied block = record {
  success = false;
  result = str [];
  error = some (codes "Permission denied by user for " ++ block.name);
  latency_ms = 0;
}

module _ (F : Format) {W : Type 0} (X : Executor W) (policy : Policy W) (task_id : Text)
    (step_num : ℕ) where
  abbrev pub request_event : ToolUse → StepEvent
  request_event block = record {
    task_id = task_id;
    step_number = step_num;
    event = permission_request block.name (safe_args_preview F block.input);
  }

  -- An exception of the callback lets the call through.
  abbrev pub answered : Result Stop Bool → Result Stop Bool
  answered (ok allowed) = ok allowed
  answered (err (raised exc)) = ok true
  answered (err cancelled) = err cancelled

  unfoldable pub ask : Callback W → ToolUse → Coroutine Stop (Scene W) Bool
  ask callback block (events, w) =
      let (allowed, w') = callback block.name block.input w in
      (
        answered allowed,
        ((if policy.streaming then events ++ (request_event block ∷ []) else events), w'),
      )

  unfoldable pub check_permission : ToolUse → Coroutine Stop (Scene W) Bool
  check_permission block =
      if policy.require_permission && is_dangerous block.name
      then (elim policy.callback [ none ↦ return true | some callback ↦ ask callback block ])
      else return true

  -- a coroutine of the tools, which leaves the events alone
  abbrev pub on_world : {A : Type 0} → Coroutine Stop W A → Coroutine Stop (Scene W) A
  on_world m (events, w) = let (r, w') = m w in (r, (events, w'))

  abbrev pub begin : ToolUse → Bool → Job
  begin block allowed = if allowed then start (start_call block) else Job.finished (denied block)

  unfoldable pub move_call : Call → Coroutine Stop (Scene W) Call
  move_call (asking block) = do
    allowed ← check_permission block
    return (running (begin block allowed))
  move_call (running job) = do job' ← on_world (move F X job); return (running job')

  -- `_execute_one`, or what is left of it
  unfoldable pub settle_call : Call → Coroutine Stop (Scene W) ToolOutput
  settle_call (asking block) = do
    allowed ← check_permission block
    on_world (settle F X (begin block allowed))
  settle_call (running job) = on_world (settle F X job)

  unfoldable pub gather_calls : List ℕ → List ToolUse → Coroutine Stop (Scene W) (List ToolOutput)
  gather_calls schedule bs = run_jobs move_call settle_call schedule (map asking bs)
