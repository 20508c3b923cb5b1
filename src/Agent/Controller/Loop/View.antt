-- ===== src/Agent/Controller/Loop/View.antt =====
-- The part of a run's state that events and tools leave alone, and what each part of a step does to it.
use mathlib.Core.List.{append-nil, append_assoc}
use agentic_ai_tee.Base.{ℕ, ◌≡◌, refl, ap, ◌∙◌, Bool, true, false, List, [], ◌∷◌, ◌++◌, Text, codes}
use agentic_ai_tee.Agent.Models.{
  Message, ToolUse, ToolOutput, LlmResponse, StepResult, StepEvent, TaskRequest,
}
use agentic_ai_tee.Tools.Router.{Format}
use agentic_ai_tee.Agent.Controller.State.{Controller, Run, Chunk, emit, emit_chunks}
use agentic_ai_tee.Agent.Controller.Loop.{say_tool_calls, record_outputs, tool_step}

pub record View (L : Type 0) : Type 0 where
  pub messages : List Message
  pub steps : List StepResult
  pub hash_parts : List Text
  pub llm_state : L

abbrev pub view : {L W : Type 0} → Run L W → View L
view r = record {
  messages = r.messages;
  steps = r.steps;
  hash_parts = r.hash_parts;
  llm_state = r.llm_state;
}

-- The steps of a response's tool uses, and what each adds to the hash.
abbrev pub tool_steps : ℕ → LlmResponse → Bool → List ToolUse → List ToolOutput → List StepResult
tool_steps n response first (b ∷ bs) (o ∷ os) =
    tool_step n response first b o ∷ tool_steps n response false bs os
tool_steps n response first _ _ = []

abbrev pub tool_parts : Format → List ToolUse → List ToolOutput → List Text
tool_parts F (b ∷ bs) (o ∷ os) =
    (b.name ++ (codes ":" ++ F.str_value o.result)) ∷ tool_parts F bs os
tool_parts F _ _ = []

module _ {L W : Type 0} where
  pub view-emit :
      (streaming : Bool) (event : StepEvent) (r : Run L W) → view (emit streaming event r) ≡ view r
  unfolding emit
  view-emit true event r = refl
  view-emit false event r = refl

  pub view-emit_chunks :
      (streaming : Bool) (task_id : Text) (n : ℕ) (cs : List Chunk) (r : Run L W)
      → view (emit_chunks streaming task_id n cs r) ≡ view r
  unfolding emit_chunks
  view-emit_chunks streaming task_id n [] r = refl
  view-emit_chunks streaming task_id n (c ∷ cs) r =
      view-emit_chunks streaming task_id n cs _ ∙ view-emit streaming _ r

module _ (F : Format) (sha3 : Text → Text) {L W : Type 0} (C : Controller L W)
    (task : TaskRequest) where
  pub view-say_tool_calls :
      (n : ℕ) (bs : List ToolUse) (r : Run L W)
      → view (say_tool_calls F sha3 C task n bs r) ≡ view r
  unfolding say_tool_calls
  view-say_tool_calls n [] r = refl
  view-say_tool_calls n (b ∷ bs) r = view-say_tool_calls n bs _ ∙ view-emit C.streaming _ r

  -- The state after a response's outputs are recorded.
  abbrev pub recorded : ℕ → LlmResponse → Bool → List ToolUse → List ToolOutput → View L → View L
  recorded n response first bs os v = record v {
    steps = v.steps ++ tool_steps n response first bs os;
    hash_parts = v.hash_parts ++ tool_parts F bs os;
  }

  recorded-nil :
      (v : View L) → v ≡ record v { steps = v.steps ++ []; hash_parts = v.hash_parts ++ [] }
  recorded-nil v = cc (append-nil v.steps, append-nil v.hash_parts)

  pub view-record_outputs :
      (n : ℕ) (response : LlmResponse) (first : Bool) (bs : List ToolUse) (os : List ToolOutput)
      (r : Run L W)
      → view (record_outputs F sha3 C task n response first bs os r)
        ≡ recorded n response first bs os (view r)
  unfolding record_outputs
  view-record_outputs n response first (b ∷ bs) (o ∷ os) r =
      view-record_outputs n response false bs os _
      ∙ (ap (recorded n response false bs os) (view-emit C.streaming _ _)
          ∙ cc (
            append_assoc r.steps (tool_step n response first b o ∷ [])
                (tool_steps n response false bs os),
            append_assoc r.hash_parts ((b.name ++ (codes ":" ++ F.str_value o.result)) ∷ [])
                (tool_parts F bs os),
          ))
  view-record_outputs n response first [] os r = recorded-nil (view r)
  view-record_outputs n response first (b ∷ bs) [] r = recorded-nil (view r)
