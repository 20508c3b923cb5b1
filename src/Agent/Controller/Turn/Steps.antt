-- ===== src/Agent/Controller/Turn/Steps.antt =====
-- What each part of a turn does to its steps.
use mathlib.Core.List.{append-nil, append_assoc}
use agentic_ai_tee.Base.{
  ℕ, ◌%◌, ◌==◌, ◌≡◌, refl, sym, ap, ◌∙◌, inl, inr, Bool, false, ◌&&◌, Bool-cases, Option, List, [],
  ◌∷◌, ◌++◌, ltb, length, Text,
}
use agentic_ai_tee.Agent.Models.{ToolUse, ToolOutput, LlmResponse, EventData}
use agentic_ai_tee.Tools.Router.{Format}
use agentic_ai_tee.Agent.Controller.Context.{estimate_history_tokens, min_recent_messages}
use agentic_ai_tee.Agent.Controller.State.{Chunk, Controller}
use agentic_ai_tee.Agent.Controller.Loop.{tool_step}
use agentic_ai_tee.Agent.Controller.Loop.View.{tool_steps}
use agentic_ai_tee.Agent.Controller.Permission.{Callback}
use agentic_ai_tee.Agent.Controller.Turn.{
  Chat, note, note_chunks, guard_context, note_tool_calls, record_results, note_checkpoint,
  compact_limit,
}

module _ (F : Format) {L W : Type 0} (C : Controller L W) (callback : Option (Callback W))
    (system_prompt : Text) (task_id : Text) where
  pub steps-note :
      (n : ℕ) (e : EventData) (c : Chat L W)
      → (note F C callback system_prompt task_id n e c).steps ≡ c.steps
  unfolding note
  steps-note n e c = elim (Bool-cases C.streaming) [ inl on ↦ rw on | inr off ↦ rw off ]

  pub steps-note_chunks :
      (n : ℕ) (ks : List Chunk) (c : Chat L W)
      → (note_chunks F C callback system_prompt task_id n ks c).steps ≡ c.steps
  unfolding note_chunks
  steps-note_chunks n [] c = refl
  steps-note_chunks n (k ∷ ks) c = steps-note_chunks n ks _ ∙ steps-note n _ c

  pub steps-note_tool_calls :
      (n : ℕ) (bs : List ToolUse) (c : Chat L W)
      → (note_tool_calls F C callback system_prompt task_id n bs c).steps ≡ c.steps
  unfolding note_tool_calls
  steps-note_tool_calls n [] c = refl
  steps-note_tool_calls n (b ∷ bs) c = steps-note_tool_calls n bs _ ∙ steps-note n _ c

  pub steps-note_checkpoint :
      (n : ℕ) (c : Chat L W)
      → (note_checkpoint F C callback system_prompt task_id n c).steps ≡ c.steps
  unfolding note_checkpoint
  steps-note_checkpoint n c =
      elim (Bool-cases (ltb 0 c.tool_call_count && (c.tool_call_count % 5 == 0))) [
        | inl due ↦ rw due (steps-note n _ c)
        | inr not_due ↦ rw not_due
      ]

  pub steps-guard_context :
      (n : ℕ) (c : Chat L W)
      → (guard_context F C callback system_prompt task_id n c).steps ≡ c.steps
  unfolding guard_context
  steps-guard_context n c =
      elim (Bool-cases (
        ltb (compact_limit F C callback system_prompt task_id)
          (estimate_history_tokens F system_prompt c.history)
        && ltb min_recent_messages (length c.history))) [
          | inl full ↦ rw full (steps-note n _ _)
          | inr fits ↦ rw fits
        ]

  pub steps-record_results :
      (n : ℕ) (response : LlmResponse) (first : Bool) (bs : List ToolUse) (os : List ToolOutput)
      (c : Chat L W)
      → (record_results F C callback system_prompt task_id n response first bs os c).steps
        ≡ c.steps ++ tool_steps n response first bs os
  unfolding record_results
  steps-record_results n response first (b ∷ bs) (o ∷ os) c =
      steps-record_results n response false bs os _
      ∙ (ap (λ s. s ++ tool_steps n response false bs os) (steps-note n _ _)
          ∙ append_assoc c.steps (tool_step n response first b o ∷ [])
              (tool_steps n response false bs os))
  steps-record_results n response first [] os c = sym (append-nil c.steps)
  steps-record_results n response first (b ∷ bs) [] c = sym (append-nil c.steps)
