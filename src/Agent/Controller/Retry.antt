-- ===== src/Agent/Controller/Retry.antt =====
-- `_dispatch_with_retry` of controller.py, and the calls of a step run together by `asyncio.gather`.
-- The calls of a step interleave: a schedule names, for each attempt, the call that makes it. An
-- attempt and the pause behind it are one move; what a schedule leaves undone is done in order.
pub mod Laws
pub mod Gather
pub mod Unstopped
use agentic_ai_tee.Base.{
  ℕ, zero, suc, ◌+◌, ◌*◌, Bool, true, false, Option, none, some, List, [], ◌∷◌, map, if◌then◌else◌,
}
use agentic_ai_tee.Base.Result.{Result, ok, err}
use agentic_ai_tee.Agent.Controller.Gather.{run_jobs}
use agentic_ai_tee.Base.Coroutine.{Coroutine, return, ◌>>=◌, ◌>>◌}
use agentic_ai_tee.Agent.Models.{ToolCall, ToolOutput, Stop, raised, cancelled}
use agentic_ai_tee.Tools.Registry.{ToolRegistry}
use agentic_ai_tee.Tools.Router.{Format, dispatch}

abbrev pub max_tool_retries : ℕ
max_tool_retries = 2

-- in milliseconds
abbrev pub tool_retry_delay : ℕ
tool_retry_delay = 500

-- A call on its way: its attempts so far and those that are left, or its output.
pub data Job : Type 0 where
  waiting : ToolCall → ℕ → ℕ → Job
  finished : ToolOutput → Job

abbrev pub start : ToolCall → Job
start call = waiting call 0 max_tool_retries

-- The router's tools, and `asyncio.sleep`, which is either slept through or cancelled.
pub record Executor (W : Type 0) : Type 0 where
  pub registry : ToolRegistry W
  pub router_timeout : ℕ
  pub sleep : ℕ → W → Bool × W

module _ (F : Format) {W : Type 0} (X : Executor W) where
  unfoldable pub attempt : ToolCall → Coroutine Stop W ToolOutput
  attempt call = dispatch F X.registry X.router_timeout none call

  -- `await asyncio.sleep(TOOL_RETRY_DELAY * (attempt + 1))`
  unfoldable pub pause : ℕ → Coroutine Stop W (Unit {0})
  pause made w =
      let (slept, w') = X.sleep (tool_retry_delay * (made + 1)) w in
      (if slept then ok tt else err cancelled, w')

  -- One pass of the loop: an attempt, and the pause if it failed and more attempts are left.
  unfoldable pub move : Job → Coroutine Stop W Job
  move (finished output) = return (finished output)
  move (waiting call made zero) = do output ← attempt call; return (finished output)
  move (waiting call made (suc left)) = do
    output ← attempt call
    if output.success
        then return (finished output)
        else (pause made >> return (waiting call (made + 1) left))

  -- The loop after so many attempts, with so many left behind the next one.
  unfoldable pub retry : ℕ → ToolCall → ℕ → Coroutine Stop W ToolOutput
  retry zero call made = attempt call
  retry (suc left) call made = do
    output ← attempt call
    let rest = retry left call (made + 1)
    if output.success then return output else (pause made >> rest)

  unfoldable pub dispatch_with_retry : ToolCall → Coroutine Stop W ToolOutput
  dispatch_with_retry call = retry max_tool_retries call 0

  unfoldable pub settle : Job → Coroutine Stop W ToolOutput
  settle (finished output) = return output
  settle (waiting call made left) = retry left call made

  unfoldable pub gather : List ℕ → List Job → Coroutine Stop W (List ToolOutput)
  gather schedule jobs = run_jobs move settle schedule jobs
