-- ===== src/Agent/Controller/Loop/Kept.antt =====
-- The rule for a whole task: what the parts of a pass keep holds of the result of `run_task`.
use mathlib.Core.Path.{subst}
use agentic_ai_tee.Base.{
  ℕ, ◌+◌, ◌≤◌, ◌<◌, ◌≡◌, sym, true, false, List, leb, leb→lt, leb→le, ◌⊎◌, Text, length, Bool-cases,
  inl, inr, arith,
}
use agentic_ai_tee.Base.Result.{Result, ok, err}
use agentic_ai_tee.Agent.Models.{
  ToolOutput, LlmResponse, StepEvent, TaskRequest, TaskResult, Stop, raised, cancelled,
  has_tool_use, tool_use_blocks,
}
use agentic_ai_tee.Tools.Router.{Format}
use agentic_ai_tee.Agent.Controller.State.{Controller, Run, total_cost}
use agentic_ai_tee.Agent.Controller.Loop.{
  run_step, run_step_loop, max_steps_guard, finish_task, run_task, initial_run, or_default,
  default_max_steps, default_max_cost,
}
use agentic_ai_tee.Agent.Controller.Loop.Invariant.{Ends, Goes, run_step_loop-Ends}
use agentic_ai_tee.Agent.Controller.Loop.View.{View, view, view-emit}
use agentic_ai_tee.Agent.Controller.Loop.Rule.{
  asked, finished, calling, answered, success, failure, Stops, take_step-Ends,
}

module _ (F : Format) (sha3 : Text → Text) {L W : Type 0} (C : Controller L W) (task : TaskRequest)
    (system_prompt : Text) where
  -- What keeps an invariant: `I` before each pass, `K` behind the model's call, `Q` of the results of
  -- the loop, `X` where the loop is stopped.
  pub record IsKept (max_steps max_cost : ℕ) (I : ℕ → View L → Type 0)
      (K : ℕ → LlmResponse → View L → Type 0) (Q : TaskResult → View L → Type 0)
      (X : Stop → View L → Type 0) : Type 0 where
    pub planned :
        (n : ℕ) (v : View L)
        → n ≤ max_steps
        → I n v
        → total_cost v.steps < max_cost
        → Ends (K n) X (asked F sha3 C task system_prompt n v)
    pub done :
        (n : ℕ) (response : LlmResponse) (v : View L)
        → K n response v
        → has_tool_use response ≡ false
        → Q
            (success F sha3 C task system_prompt n response v)
            (finished F sha3 C task system_prompt n response v)
    pub stopped :
        (n : ℕ) (response : LlmResponse) (v : View L) (w : W) (s : Stop)
        → K n response v
        → has_tool_use response ≡ true
        → Stops F sha3 C task system_prompt n (tool_use_blocks response) w s
        → X s (calling F sha3 C task system_prompt response v)
    pub ran :
        (n : ℕ) (response : LlmResponse) (v : View L) (os : List ToolOutput)
        → K n response v
        → has_tool_use response ≡ true
        → length os ≡ length (tool_use_blocks response)
        → I (n + 1) (answered F sha3 C task system_prompt n response os v)
    pub over :
        (n : ℕ) (v : View L) (summary error_text : Text)
        → I n v
        → (max_steps < n) ⊎ (max_cost ≤ total_cost v.steps)
        → Q (failure F sha3 C task system_prompt summary error_text v) v

  module _ (max_steps max_cost : ℕ) (I : ℕ → View L → Type 0)
      (K : ℕ → LlmResponse → View L → Type 0) (Q : TaskResult → View L → Type 0)
      (X : Stop → View L → Type 0) (kept : IsKept max_steps max_cost I K Q X) where
    abbrev Qr : TaskResult → Run L W → Type 0
    Qr result r = Q result (view r)

    abbrev Xr : Stop → Run L W → Type 0
    Xr s r = X s (view r)

    run_step-Ends :
        (n : ℕ) (r : Run L W)
        → n ≤ max_steps
        → I n (view r)
        → Ends
            (Goes (λ t. I (n + 1) (view t)) Qr)
            Xr
            (run_step F sha3 C task system_prompt max_cost n r)
    unfolding run_step
    run_step-Ends n r early h = elim (Bool-cases (leb max_cost (total_cost r.steps))) [
      | inl spent ↦ rw spent (
          subst (Q _) (sym (view-emit C.streaming _ r))
            (kept.over n (view r) _ _ h (inr (leb→le _ _ spent))))
      | inr left ↦ rw left (
          take_step-Ends F sha3 C task system_prompt I K Q X n r
            (kept.planned n (view r) early h (leb→lt _ _ left)) (kept.done n) (kept.stopped n)
            (kept.ran n))
    ]

    guard-Ends :
        (n : ℕ) (r : Run L W)
        → n ≡ max_steps + 1
        → I n (view r)
        → Ends Qr Xr (max_steps_guard F sha3 C task max_steps r)
    unfolding max_steps_guard
    guard-Ends n r past h =
        subst (Q _) (sym (view-emit C.streaming _ r))
          (kept.over n (view r) _ _ h (inl (omega (arith, past))))

    pub loop-Kept :
        (left n : ℕ) (r : Run L W)
        → n + left ≡ max_steps + 1
        → I n (view r)
        → Ends Qr Xr (run_step_loop F sha3 C task system_prompt max_steps max_cost left n r)
    loop-Kept left n r e h =
        run_step_loop-Ends F sha3 C task system_prompt max_steps max_cost (λ k t. I k (view t)) Qr
          Xr run_step-Ends guard-Ends left n r e h

  module _ (I : ℕ → View L → Type 0) (K : ℕ → LlmResponse → View L → Type 0)
      (Q : TaskResult → View L → Type 0) (X : Stop → View L → Type 0)
      (T : TaskResult → View L → Type 0)
      (kept : IsKept
        (or_default task.max_steps default_max_steps)
        (or_default task.budget_usd default_max_cost)
        I
        K
        Q
        X)
      (returned : (result : TaskResult) (v : View L) → Q result v → T result v)
      (handled : (s : Stop) (v : View L) (summary error_text : Text)
        → X s v
        → T (failure F sha3 C task system_prompt summary error_text v) v) where
    finish_task-Kept :
        (timeout : ℕ) (res : Result Stop TaskResult) (r : Run L W)
        → Ends (λ result t. Q result (view t)) (λ s t. X s (view t)) (res, r)
        → T
            (finish_task F sha3 C task timeout res r).0
            (view (finish_task F sha3 C task timeout res r).1)
    unfolding finish_task
    finish_task-Kept timeout (ok result) r h = returned result (view r) h
    finish_task-Kept timeout (err cancelled) r h =
        subst (T _) (sym (view-emit C.streaming _ r)) (handled cancelled (view r) _ _ h)
    finish_task-Kept timeout (err (raised e)) r h = elim (Bool-cases e.is_timeout) [
      | inl late ↦
          rw late
            (subst (T _) (sym (view-emit C.streaming _ r)) (handled (raised e) (view r) _ _ h))
      | inr other ↦
          rw other
            (subst (T _) (sym (view-emit C.streaming _ r)) (handled (raised e) (view r) _ _ h))
    ]

    pub run_task-Kept :
        (events : List StepEvent) (l : L) (w : W)
        → I 1 (view (initial_run F sha3 C task events l w))
        → let (result, r) = run_task F sha3 C task system_prompt events l w in T result (view r)
    unfolding run_task
    run_task-Kept events l w h =
        finish_task-Kept _ _ _
          (loop-Kept _ _ I K Q X kept _ 1 (initial_run F sha3 C task events l w) (omega arith) h)
