-- ===== src/Agent/Controller/Loop.antt =====
-- `run_task` and `_run_step_loop` of controller.py. The timeout around the loop shows as a cancellation
-- of the awaits in it: a call of the model, a tool run or a pause. `elapsed_seconds` is left out.
pub mod Messages
pub mod Invariant
pub mod View
pub mod Rule
pub mod Kept
pub mod Asked
pub mod Integrity
pub mod Budget
pub mod Metered
pub mod History
pub mod Liveness
pub mod Total
use agentic_ai_tee.Base.{
  ℕ, zero, suc, ◌+◌, Bool, true, false, not, Option, none, some, List, [], ◌∷◌, ◌++◌, map, leb,
  ◌==◌, if◌then◌else◌, length, Text, codes, join, newline, Value, dict, Fields, end,
}
use agentic_ai_tee.Base.Result.{Result, ok, err}
use agentic_ai_tee.Agent.Models.{
  ContentBlock, tool_result_block, plain, blocks, Message, user, assistant, ToolUse, ToolCall,
  ToolOutput, ToolResult, LlmResponse, response_text, tool_use_blocks, has_tool_use, StepResult,
  TaskRequest, TaskResult, StepEvent, EventData, thinking, tool_call, tool_result, complete, error,
  Exn, Stop, raised, cancelled,
}
use agentic_ai_tee.Tools.Registry.{build_tool_definitions}
use agentic_ai_tee.Tools.Router.{Format}
use agentic_ai_tee.Agent.Controller.Output.{truncate_output, safe_args_preview}
use agentic_ai_tee.Agent.Controller.Retry.{start, gather}
use agentic_ai_tee.Agent.Controller.State.{
  LlmRequest, Controller, Run, total_cost, emit, emit_chunks,
}
use agentic_ai_tee.Base.Coroutine.{Coroutine, return, ◌>>=◌, ◌>>◌}
use Messages.{
  cost_event, cost_summary, timeout_event, timeout_summary, max_steps_event, max_steps_summary,
  task_failed,
}

abbrev pub default_max_steps : ℕ
default_max_steps = 50

-- in millionths of a dollar
abbrev pub default_max_cost : ℕ
default_max_cost = 5_000_000

-- `n or default`
abbrev pub or_default : ℕ → ℕ → ℕ
or_default n default = if n == 0 then default else n

abbrev pub keys_of : Fields → List Text
keys_of end = []
keys_of (Fields.field k v d) = k ∷ keys_of d

-- What the model is told of an output: `str(result)`, or the error.
unfoldable pub result_content : Format → ToolOutput → Text
result_content F output = truncate_output (
    if output.success
    then F.str_value output.result
    else codes "Error: " ++ (elim output.error [ none ↦ codes "None" | some e ↦ e ]))

unfoldable pub result_block : Format → ToolUse → ToolOutput → ContentBlock
result_block F block output = tool_result_block (record {
  tool_use_id = block.id;
  content = result_content F output;
  is_error = not output.success;
})

-- the blocks of a step's answer, one for each pair of a tool use and its output
unfoldable pub result_blocks : Format → List ToolUse → List ToolOutput → List ContentBlock
result_blocks F (b ∷ bs) (o ∷ os) = result_block F b o ∷ result_blocks F bs os
result_blocks F _ _ = []

abbrev pub start_call : ToolUse → ToolCall
start_call block = record { name = block.name; args = block.input }

-- The step of a tool use: only the first of a response carries its text, tokens and latency.
unfoldable pub tool_step : ℕ → LlmResponse → Bool → ToolUse → ToolOutput → StepResult
tool_step step_num response first block output = record {
  step_number = step_num;
  tool_name = some block.name;
  tool_args = block.input;
  output = some output;
  llm_response = if first then response_text response else [];
  input_tokens = if first then response.input_tokens else 0;
  output_tokens = if first then response.output_tokens else 0;
  latency_ms = if first then response.latency_ms else 0;
}

-- The step of the last response.
unfoldable pub final_step : ℕ → LlmResponse → StepResult
final_step step_num response = record {
  step_number = step_num;
  tool_name = none;
  tool_args = end;
  output = none;
  llm_response = response_text response;
  input_tokens = response.input_tokens;
  output_tokens = response.output_tokens;
  latency_ms = response.latency_ms;
}

-- The parameter `sha3` is the hex digest of `hashlib.sha3_256` over a text's UTF-8 bytes.
module _ (F : Format) (sha3 : Text → Text) {L W : Type 0} (C : Controller L W)
    (task : TaskRequest) where
  abbrev pub Step : Type 0 → Type 0
  Step = Coroutine Stop (Run L W)

  abbrev pub modify : (Run L W → Run L W) → Step (Unit {0})
  modify f r = (ok tt, f r)

  abbrev pub say : ℕ → EventData → Run L W → Run L W
  say step_num event =
      emit C.streaming (record { task_id = task.task_id; step_number = step_num; event = event })

  abbrev pub failed : Text → Text → Run L W → TaskResult
  failed summary error_text r = record {
    task_id = task.task_id;
    success = false;
    summary = summary;
    steps = r.steps;
    total_cost_usd = total_cost r.steps;
    attestation_hash = [];
    error = some error_text;
  }

  -- `Planner.plan_next_step`, with the callbacks of the loop
  unfoldable pub plan_next_step : Text → ℕ → Step LlmResponse
  plan_next_step system_prompt step_num r =
      let (response, chunks, l) =
        C.llm
          (record {
            system = system_prompt;
            messages = r.messages;
            tools = build_tool_definitions C.executor.registry;
            max_tokens = 4096;
            task_id = task.task_id;
            step_number = step_num;
            enable_thinking = C.enable_thinking;
          })
          r.llm_state in
      (response, emit_chunks C.streaming task.task_id step_num chunks (record r { llm_state = l }))

  -- Step 2: a response with no tool use ends the task.
  unfoldable pub complete_task : ℕ → LlmResponse → Step (Option TaskResult)
  complete_task step_num response r =
      let steps = r.steps ++ (final_step step_num response ∷ []) in
      let parts = r.hash_parts ++ (response_text response ∷ []) in
      (
        ok (
            some (record {
              task_id = task.task_id;
              success = true;
              summary = response_text response;
              steps = steps;
              total_cost_usd = total_cost steps;
              attestation_hash = sha3 (join newline parts);
              error = none;
            })),
        say step_num (complete (response_text response))
            (record r { steps = steps; hash_parts = parts }),
      )

  unfoldable pub say_tool_calls : ℕ → List ToolUse → Run L W → Run L W
  say_tool_calls step_num [] r = r
  say_tool_calls step_num (b ∷ bs) r =
      say_tool_calls step_num bs
        (say step_num (tool_call b.name (keys_of b.input) (safe_args_preview F b.input)) r)

  -- The loop over the results; `first` is `i == 0`.
  unfoldable pub record_outputs :
      ℕ → LlmResponse → Bool → List ToolUse → List ToolOutput → Run L W → Run L W
  record_outputs step_num response first (b ∷ bs) (o ∷ os) r =
      record_outputs step_num response false bs os (
        say step_num (tool_result b.name o.success o.latency_ms) (record r {
          steps = r.steps ++ (tool_step step_num response first b o ∷ []);
          hash_parts = r.hash_parts ++ ((b.name ++ (codes ":" ++ F.str_value o.result)) ∷ []);
        }))
  record_outputs step_num response first _ _ r = r

  abbrev pub append_message : Message → Run L W → Run L W
  append_message m r = record r { messages = r.messages ++ (m ∷ []) }

  unfoldable pub run_tools : ℕ → List ToolUse → Step (List ToolOutput)
  run_tools step_num bs r =
      let (outputs, w) =
        gather F C.executor (C.schedule step_num) (map start (map start_call bs)) r.world in
      (outputs, record r { world = w })

  -- Step 3: the tool uses of a response are run, recorded and answered.
  unfoldable pub execute_tools : ℕ → LlmResponse → Step (Unit {0})
  execute_tools step_num response = do
    let bs = tool_use_blocks response
    modify (append_message (record { role = assistant; content = blocks response.content }))
    modify (say_tool_calls step_num bs)
    outputs ← run_tools step_num bs
    modify (record_outputs step_num response true bs outputs)
    modify (append_message (record { role = user; content = blocks (result_blocks F bs outputs) }))

  unfoldable pub take_step : Text → ℕ → Step (Option TaskResult)
  take_step system_prompt step_num = do
    modify (say step_num thinking)
    response ← plan_next_step system_prompt step_num
    if has_tool_use response
        then (execute_tools step_num response >> return none)
        else complete_task step_num response

  -- One pass of `_run_step_loop`: the cost guard, and then the step; `none` is `continue`.
  unfoldable pub run_step : Text → ℕ → ℕ → Step (Option TaskResult)
  run_step system_prompt max_cost step_num r =
      if leb max_cost (total_cost r.steps)
      then (
        ok (some (failed (cost_summary F (total_cost r.steps) max_cost) (codes "cost_exceeded") r)),
        say step_num (error (cost_event F (total_cost r.steps) max_cost)) r,
      )
      else take_step system_prompt step_num r

  unfoldable pub max_steps_guard : ℕ → Step TaskResult
  max_steps_guard max_steps r = (
    ok (failed (max_steps_summary max_steps) (codes "max_steps_exceeded") r),
    say max_steps (error (max_steps_event max_steps)) r,
  )

  -- A pass that returned ends the loop.
  abbrev pub onward : Option TaskResult → Step TaskResult → Step TaskResult
  onward none rest = rest
  onward (some result) rest = return result

  -- `_run_step_loop`, with so many passes left, at a step number.
  unfoldable pub run_step_loop : Text → ℕ → ℕ → ℕ → ℕ → Step TaskResult
  run_step_loop system_prompt max_steps max_cost zero step_num = max_steps_guard max_steps
  run_step_loop system_prompt max_steps max_cost (suc left) step_num = do
    outcome ← run_step system_prompt max_cost step_num
    let rest = run_step_loop system_prompt max_steps max_cost left (step_num + 1)
    onward outcome rest

  -- The end of `run_task`: a result, or what its handlers make of an exception.
  unfoldable pub finish_task : ℕ → Result Stop TaskResult → Run L W → TaskResult × Run L W
  finish_task timeout (ok result) r = (result, r)
  finish_task timeout (err cancelled) r = (
    failed (timeout_summary F timeout (length r.steps)) (codes "timeout") r,
    say (length r.steps) (error (timeout_event F timeout)) r,
  )
  finish_task timeout (err (raised exc)) r =
      if exc.is_timeout
      then (
        failed (timeout_summary F timeout (length r.steps)) (codes "timeout") r,
        say (length r.steps) (error (timeout_event F timeout)) r,
      )
      else (
        failed (task_failed exc.message) exc.message r,
        say (length r.steps) (error exc.message) r,
      )

  abbrev pub initial_run : List StepEvent → L → W → Run L W
  initial_run events l w = record {
    messages = record { role = user; content = plain task.description } ∷ [];
    steps = [];
    hash_parts = task.description ∷ [];
    events = events;
    llm_state = l;
    world = w;
  }

  unfoldable pub run_task : Text → List StepEvent → L → W → TaskResult × Run L W
  run_task system_prompt events l w =
      let max_steps = or_default task.max_steps default_max_steps in
      let (outcome, r) =
        run_step_loop system_prompt max_steps (or_default task.budget_usd default_max_cost)
          max_steps 1 (initial_run events l w) in
      finish_task (or_default task.timeout_ms C.default_timeout) outcome r
