-- ===== src/Agent/Controller/State.antt =====
-- What a task's run reads and changes: the controller, the language model, and the locals of the
-- coroutines of controller.py, which share `messages`, `steps` and `task_hash_parts` by reference.
use agentic_ai_tee.Base.{ℕ, Bool, List, [], ◌∷◌, ◌++◌, if◌then◌else◌, sum_by, Text, Fields}
use agentic_ai_tee.Base.Result.{Result}
use agentic_ai_tee.Agent.Models.{
  Message, StepResult, StepEvent, EventData, thinking_content, chunk, LlmResponse, Stop, step_cost,
}
use agentic_ai_tee.Agent.Controller.Retry.{Executor}

-- A call of `LLMClient.call`, as `Planner.plan_next_step` makes it.
pub record LlmRequest : Type 0 where
  pub system : Text
  pub messages : List Message
  pub tools : List Fields
  pub max_tokens : ℕ
  pub task_id : Text
  pub step_number : ℕ
  pub enable_thinking : Bool

-- What a streaming client passes to its callbacks before it returns.
pub data Chunk : Type 0 where
  text_chunk : Text → Chunk
  thinking_chunk : Text → Chunk

-- A client: from its state and a request, what it streamed, how the call ended, and its new state.
abbrev pub Llm : Type 0 → Type 0
Llm L = LlmRequest → L → Result Stop LlmResponse × List Chunk × L

-- An AgentController with its client, its router's executor, and the interleaving of each step.
pub record Controller (L W : Type 0) : Type 0 where
  pub llm : Llm L
  pub executor : Executor W
  pub schedule : ℕ → List ℕ
  pub default_timeout : ℕ
  pub context_window : ℕ
  pub enable_thinking : Bool
  pub require_permission : Bool
  -- whether `enable_streaming` was called
  pub streaming : Bool

pub record Run (L W : Type 0) : Type 0 where
  pub messages : List Message
  pub steps : List StepResult
  pub hash_parts : List Text
  pub events : List StepEvent
  pub llm_state : L
  pub world : W

-- `sum(s.cost_usd for s in steps)`
abbrev pub total_cost : List StepResult → ℕ
total_cost = sum_by step_cost

abbrev pub chunk_event : Chunk → EventData
chunk_event (text_chunk t) = chunk t
chunk_event (thinking_chunk t) = thinking_content t

module _ {L W : Type 0} where
  -- `_emit_event`
  unfoldable pub emit : Bool → StepEvent → Run L W → Run L W
  emit streaming event r = if streaming then record r { events = r.events ++ (event ∷ []) } else r

  -- the callbacks `on_chunk` and `on_thinking_chunk`
  unfoldable pub emit_chunks : Bool → Text → ℕ → List Chunk → Run L W → Run L W
  emit_chunks streaming task_id step_num [] r = r
  emit_chunks streaming task_id step_num (c ∷ cs) r = emit_chunks streaming task_id step_num cs (
      emit streaming (record { task_id = task_id; step_number = step_num; event = chunk_event c })
        r)
