-- ===== src/Agent/Controller/Turn.antt =====
-- `run_conversation_turn` of controller.py: one turn of a conversation, over a history that the caller
-- keeps, with compaction, permissions and checkpoints. `int(window * 0.70)` is seven tenths, rounded
-- down.
pub mod Steps
pub mod Laws
pub mod Tests
use agentic_ai_tee.Base.{
  ℕ, zero, suc, ◌+◌, ◌*◌, ◌/◌, ◌%◌, Bool, true, false, ◌&&◌, Option, none, some, List, [], ◌∷◌,
  ◌++◌, leb, ltb, ◌==◌, if◌then◌else◌, length, Text, codes,
}
use agentic_ai_tee.Base.Result.{Result, ok, err}
use agentic_ai_tee.Base.Coroutine.{Coroutine, return, ◌>>=◌, ◌>>◌}
use agentic_ai_tee.Agent.Models.{
  plain, blocks, Message, user, assistant, ToolUse, ToolOutput, LlmResponse, response_text,
  tool_use_blocks, has_tool_use, StepResult, StepEvent, EventData, thinking, tool_call, tool_result,
  checkpoint, compacted, complete, error, Stop, raised, cancelled,
}
use agentic_ai_tee.Tools.Registry.{build_tool_definitions}
use agentic_ai_tee.Tools.Router.{Format}
use agentic_ai_tee.Agent.Controller.Context.{
  min_recent_messages, estimate_tokens, estimate_history_tokens, compact_history,
}
use agentic_ai_tee.Agent.Controller.Output.{safe_args_preview}
use agentic_ai_tee.Agent.Controller.State.{LlmRequest, Chunk, chunk_event, Controller, total_cost}
use agentic_ai_tee.Agent.Controller.Loop.{result_blocks, tool_step, final_step, keys_of}
use agentic_ai_tee.Agent.Controller.Loop.Messages.{cost_event, max_steps_summary}
use agentic_ai_tee.Agent.Controller.Permission.{Callback, Policy, gather_calls}

pub record Chat (L W : Type 0) : Type 0 where
  pub history : List Message
  pub steps : List StepResult
  pub tool_call_count : ℕ
  pub events : List StepEvent
  pub llm_state : L
  pub world : W

pub turn_timed_out : Format → ℕ → Text
turn_timed_out F timeout =
    codes "Conversation turn timed out after " ++ (F.seconds timeout ++ codes "s")

pub turn_failed : Text → Text
turn_failed message = codes "Conversation turn failed: " ++ message

abbrev pub as_error : Text → Text
as_error message = codes "Error: " ++ message

module _ (F : Format) {L W : Type 0} (C : Controller L W) (callback : Option (Callback W))
    (system_prompt : Text) (task_id : Text) where
  abbrev pub Part : Type 0 → Type 0
  Part = Coroutine Stop (Chat L W)

  -- The text and the cost of a turn.
  abbrev pub Reply : Type 0
  Reply = Text × ℕ

  abbrev pub update : (Chat L W → Chat L W) → Part (Unit {0})
  update f c = (ok tt, f c)

  unfoldable pub note : ℕ → EventData → Chat L W → Chat L W
  note step_num event c =
      if C.streaming
      then record c {
        events =
            c.events ++ (record { task_id = task_id; step_number = step_num; event = event } ∷ []);
      }
      else c

  unfoldable pub note_chunks : ℕ → List Chunk → Chat L W → Chat L W
  note_chunks step_num [] c = c
  note_chunks step_num (k ∷ ks) c = note_chunks step_num ks (note step_num (chunk_event k) c)

  abbrev pub append : Message → Chat L W → Chat L W
  append m c = record c { history = c.history ++ (m ∷ []) }

  abbrev pub compact_limit : ℕ
  compact_limit = C.context_window * 7 / 10

  -- The guard on the context window.
  unfoldable pub guard_context : ℕ → Chat L W → Chat L W
  guard_context step_num c =
      if ltb compact_limit (estimate_history_tokens F system_prompt c.history)
        && ltb min_recent_messages (length c.history)
      then (let shorter =
            compact_history F c.history compact_limit (estimate_tokens system_prompt) in
          note step_num
            (compacted (estimate_history_tokens F system_prompt shorter) C.context_window)
            (record c { history = shorter }))
      else c

  unfoldable pub plan_reply : ℕ → Part LlmResponse
  plan_reply step_num c =
      let (response, chunks, l) =
        C.llm
          (record {
            system = system_prompt;
            messages = c.history;
            tools = build_tool_definitions C.executor.registry;
            max_tokens = 4096;
            task_id = task_id;
            step_number = step_num;
            enable_thinking = C.enable_thinking;
          })
          c.llm_state in
      (response, note_chunks step_num chunks (record c { llm_state = l }))

  -- Step 2: the last response goes to the history.
  unfoldable pub complete_turn : ℕ → LlmResponse → Part (Option Reply)
  complete_turn step_num response c =
      let steps = c.steps ++ (final_step step_num response ∷ []) in
      (
        ok (some (response_text response, total_cost steps)),
        note step_num (complete (response_text response)) (
            append (record { role = assistant; content = blocks response.content })
              (record c { steps = steps })),
      )

  unfoldable pub note_tool_calls : ℕ → List ToolUse → Chat L W → Chat L W
  note_tool_calls step_num [] c = c
  note_tool_calls step_num (b ∷ bs) c =
      note_tool_calls step_num bs
        (note step_num (tool_call b.name (keys_of b.input) (safe_args_preview F b.input)) c)

  abbrev pub policy : Policy W
  policy = record {
    require_permission = C.require_permission;
    callback = callback;
    streaming = C.streaming;
  }

  unfoldable pub run_calls : ℕ → List ToolUse → Part (List ToolOutput)
  run_calls step_num bs c =
      let (outputs, scene) =
        gather_calls F C.executor policy task_id step_num (C.schedule step_num) bs
          (c.events, c.world) in
      (outputs, record c { events = scene.0; world = scene.1 })

  unfoldable pub record_results :
      ℕ → LlmResponse → Bool → List ToolUse → List ToolOutput → Chat L W → Chat L W
  record_results step_num response first (b ∷ bs) (o ∷ os) c =
      record_results step_num response false bs os (
        note step_num (tool_result b.name o.success o.latency_ms) (record c {
          tool_call_count = c.tool_call_count + 1;
          steps = c.steps ++ (tool_step step_num response first b o ∷ []);
        }))
  record_results step_num response first _ _ c = c

  -- a checkpoint behind every fifth tool call
  unfoldable pub note_checkpoint : ℕ → Chat L W → Chat L W
  note_checkpoint step_num c =
      if ltb 0 c.tool_call_count && (c.tool_call_count % 5 == 0)
      then note step_num (checkpoint c.tool_call_count (total_cost c.steps)) c
      else c

  -- Step 3
  unfoldable pub use_tools : ℕ → LlmResponse → Part (Unit {0})
  use_tools step_num response = do
    let bs = tool_use_blocks response
    update (append (record { role = assistant; content = blocks response.content }))
    update (note_tool_calls step_num bs)
    outputs ← run_calls step_num bs
    update (record_results step_num response true bs outputs)
    update (note_checkpoint step_num)
    update (append (record { role = user; content = blocks (result_blocks F bs outputs) }))

  unfoldable pub take_turn_step : ℕ → Part (Option Reply)
  take_turn_step step_num = do
    update (guard_context step_num)
    update (note step_num thinking)
    response ← plan_reply step_num
    if has_tool_use response
        then (use_tools step_num response >> return none)
        else complete_turn step_num response

  -- One pass of `_inner_loop`; `none` goes on.
  unfoldable pub turn_step : ℕ → ℕ → Part (Option Reply)
  turn_step max_cost step_num c =
      if leb max_cost (total_cost c.steps)
      then (
        ok (some (as_error (cost_event F (total_cost c.steps) max_cost), total_cost c.steps)),
        note step_num (error (cost_event F (total_cost c.steps) max_cost)) c,
      )
      else take_turn_step step_num c

  unfoldable pub turn_guard : ℕ → Part Reply
  turn_guard max_steps c = (
    ok (as_error (max_steps_summary max_steps), total_cost c.steps),
    note max_steps (error (max_steps_summary max_steps)) c,
  )

  abbrev pub go_on : Option Reply → Part Reply → Part Reply
  go_on none rest = rest
  go_on (some reply) rest = return reply

  -- `_inner_loop`, with so many passes left, at a step number.
  unfoldable pub turn_loop : ℕ → ℕ → ℕ → ℕ → Part Reply
  turn_loop max_steps max_cost zero step_num = turn_guard max_steps
  turn_loop max_steps max_cost (suc left) step_num = do
    outcome ← turn_step max_cost step_num
    let rest = turn_loop max_steps max_cost left (step_num + 1)
    go_on outcome rest

  -- The end of the turn: a reply, or what the handlers make of an exception.
  unfoldable pub finish_turn : ℕ → Result Stop Reply → Chat L W → Reply × Chat L W
  finish_turn timeout (ok reply) c = (reply, c)
  finish_turn timeout (err cancelled) c = (
    (as_error (turn_timed_out F timeout), total_cost c.steps),
    note (length c.steps + 1) (error (turn_timed_out F timeout)) c,
  )
  finish_turn timeout (err (raised exc)) c =
      let message = if exc.is_timeout then turn_timed_out F timeout else turn_failed exc.message in
      ((as_error message, total_cost c.steps), note (length c.steps + 1) (error message) c)

  abbrev pub begin_turn : Text → List Message → List StepEvent → L → W → Chat L W
  begin_turn user_message history events l w = record {
    history = history ++ (record { role = user; content = plain user_message } ∷ []);
    steps = [];
    tool_call_count = 0;
    events = events;
    llm_state = l;
    world = w;
  }

  unfoldable pub run_conversation_turn :
      ℕ → ℕ → ℕ → Text → List Message → List StepEvent → L → W → Reply × Chat L W
  run_conversation_turn max_steps max_cost timeout user_message history events l w =
      let (outcome, c) =
        turn_loop max_steps max_cost max_steps 1 (begin_turn user_message history events l w) in
      finish_turn timeout outcome c
