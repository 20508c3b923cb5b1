-- ===== src/Agent/Controller/Turn/Laws.antt =====
-- What a turn may cost, and that it reports what its steps cost.
use agentic_ai_tee.Base.{
  ℕ, zero, suc, ◌+◌, ◌≤◌, ◌<◌, ◌≡◌, refl, sym, ap, ◌∙◌, ◌⊎◌, inl, inr, true, false, Bool-cases,
  Option, none, some, List, ◌++◌, leb, leb→lt, length, if◌then◌else◌, Text, arith,
}
use agentic_ai_tee.Base.Result.{Result, ok, err}
use agentic_ai_tee.Base.Coroutine.{return, ◌>>◌}
use agentic_ai_tee.Agent.Models.{
  Message, assistant, blocks, thinking, ToolUse, ToolOutput, LlmResponse, StepEvent, Stop, raised,
  cancelled, has_tool_use, tool_use_blocks, response_cost,
}
use agentic_ai_tee.Tools.Router.{Format}
use agentic_ai_tee.Agent.Controller.State.{LlmRequest, Controller, total_cost}
use agentic_ai_tee.Agent.Controller.Loop.Invariant.{Ends, Ends-bind}
use agentic_ai_tee.Agent.Controller.Loop.View.{tool_steps}
use agentic_ai_tee.Agent.Controller.Loop.Rule.{length-All₂}
use agentic_ai_tee.Agent.Controller.Loop.Budget.{answered_cost, finished_cost}
use agentic_ai_tee.Agent.Controller.Permission.{Callback, gather_calls}
use agentic_ai_tee.Agent.Controller.Permission.Laws.{gather_calls-Answered}
use agentic_ai_tee.Agent.Controller.Turn.{
  Chat, guard_context, plan_reply, complete_turn, note_tool_calls, run_calls, record_results,
  use_tools, take_turn_step, turn_step, turn_guard, turn_loop, go_on, finish_turn, begin_turn,
  run_conversation_turn, policy, append,
}
use agentic_ai_tee.Agent.Controller.Turn.Steps.{
  steps-note, steps-note_chunks, steps-note_tool_calls, steps-note_checkpoint, steps-guard_context,
  steps-record_results,
}

module _ (F : Format) {L W : Type 0} (C : Controller L W) (callback : Option (Callback W))
    (system_prompt : Text) (task_id : Text) where
  module _ (max_cost dearest : ℕ)
      (bounded : (q : LlmRequest) (l : L) (response : LlmResponse)
        → (C.llm q l).0 ≡ ok response
        → response_cost response ≤ dearest) where
    abbrev Below : Chat L W → Type 0
    Below c = total_cost c.steps ≤ max_cost + dearest

    abbrev Reports : Text × ℕ → Chat L W → Type 0
    Reports reply c = (reply.1 ≤ max_cost + dearest) × (reply.1 ≡ total_cost c.steps)

    abbrev Passed : Option (Text × ℕ) → Chat L W → Type 0
    Passed none c = Below c
    Passed (some reply) c = Reports reply c

    plan_reply-Ends :
        (n : ℕ) (c : Chat L W)
        → total_cost c.steps < max_cost
        → Ends
            (λ response t. (total_cost t.steps < max_cost) × (response_cost response ≤ dearest))
            (λ s t. Below t)
            (plan_reply F C callback system_prompt task_id n c)
    unfolding plan_reply
    plan_reply-Ends n c left =
        ended _ _ (steps-note_chunks F C callback system_prompt task_id n _ _)
          (λ a e. bounded _ c.llm_state a e)
      where
        ended :
            (res : Result Stop LlmResponse) (t : Chat L W)
            → t.steps ≡ c.steps
            → ((a : LlmResponse) → res ≡ ok a → response_cost a ≤ dearest)
            → Ends
                (λ response t. (total_cost t.steps < max_cost) × (response_cost response ≤ dearest))
                (λ s t. Below t)
                (res, t)
        ended (ok a) t same cheap = (omega (arith, left, ap total_cost same), cheap a refl)
        ended (err s) t same cheap = omega (arith, left, ap total_cost same)

    run_calls-Ends :
        (n : ℕ) (bs : List ToolUse) (c : Chat L W)
        → Below c
        → Ends
            (λ os t. (length os ≡ length bs) × (t.steps ≡ c.steps))
            (λ s t. Below t)
            (run_calls F C callback system_prompt task_id n bs c)
    unfolding run_calls
    run_calls-Ends n bs c below = ended _ _ refl
      where
        ended :
            (res : Result Stop (List ToolOutput)) (scene : List StepEvent × W)
            → gather_calls F C.executor
                (policy F C callback system_prompt task_id)
                task_id
                n
                (C.schedule n)
                bs
                (c.events, c.world)
              ≡ (res, scene)
            → Ends
                (λ os t. (length os ≡ length bs) × (t.steps ≡ c.steps))
                (λ s t. Below t)
                (res, record c { events = scene.0; world = scene.1 })
        ended (ok os) scene e = (
          length-All₂ _ bs os (
              gather_calls-Answered F C.executor (policy F C callback system_prompt task_id) task_id
                n (C.schedule n) bs os (c.events, c.world) scene e),
          refl,
        )
        ended (err s) scene e = below

    use_tools-Ends :
        (n : ℕ) (response : LlmResponse) (c : Chat L W)
        → total_cost c.steps < max_cost
        → response_cost response ≤ dearest
        → has_tool_use response ≡ true
        → Ends
            (λ u t. Below t)
            (λ s t. Below t)
            (use_tools F C callback system_prompt task_id n response c)
    unfolding use_tools
    use_tools-Ends n response c left cheap uses =
        Ends-bind (λ os t. (length os ≡ length (tool_use_blocks response)) × (t.steps ≡ c.steps)) _
          (λ s t. Below t)
          (run_calls F C callback system_prompt task_id n (tool_use_blocks response)) _ _
          (run_called _ (
            run_calls-Ends n (tool_use_blocks response) _
              (omega (arith, left, ap total_cost called))))
          (λ os t ran. omega (
            arith,
            left,
            cheap,
            ap total_cost (
                steps-note_checkpoint F C callback system_prompt task_id n (
                  record_results F C callback system_prompt task_id n response true
                    (tool_use_blocks response) os t)
                ∙ (steps-record_results F C callback system_prompt task_id n response true
                      (tool_use_blocks response) os t
                    ∙ ap (λ s. s ++ tool_steps n response true (tool_use_blocks response) os)
                        ran.1)),
            answered_cost n response c.steps os uses ran.0,
          ))
      where
        called :
            (note_tool_calls F C callback system_prompt task_id n (tool_use_blocks response) (
              append F C callback system_prompt task_id
                (record { role = assistant; content = blocks response.content })
                c)).steps
            ≡ c.steps
        called =
            steps-note_tool_calls F C callback system_prompt task_id n (tool_use_blocks response) _

        run_called :
            (p : Result Stop (List ToolOutput) × Chat L W)
            → Ends
                (λ os t.
                  (length os ≡ length (tool_use_blocks response))
                  × (t.steps
                      ≡ (note_tool_calls F C callback system_prompt task_id n
                          (tool_use_blocks response)
                          (append F C callback system_prompt task_id
                            (record { role = assistant; content = blocks response.content })
                            c)).steps))
                (λ s t. Below t)
                p
            → Ends
                (λ os t. (length os ≡ length (tool_use_blocks response)) × (t.steps ≡ c.steps))
                (λ s t. Below t)
                p
        run_called (ok os, t) h = (h.0, h.1 ∙ called)
        run_called (err s, t) h = h

    complete_turn-Ends :
        (n : ℕ) (response : LlmResponse) (c : Chat L W)
        → total_cost c.steps < max_cost
        → response_cost response ≤ dearest
        → Ends Passed
            (λ s t. Below t)
            (complete_turn F C callback system_prompt task_id n response c)
    unfolding complete_turn
    complete_turn-Ends n response c left cheap = (
      omega (arith, left, cheap, finished_cost n response c.steps),
      sym (ap total_cost (steps-note F C callback system_prompt task_id n _ _)),
    )

    take_turn_step-Ends :
        (n : ℕ) (c : Chat L W)
        → total_cost c.steps < max_cost
        → Ends Passed (λ s t. Below t) (take_turn_step F C callback system_prompt task_id n c)
    unfolding take_turn_step
    take_turn_step-Ends n c left =
        Ends-bind
          (λ response t. (total_cost t.steps < max_cost) × (response_cost response ≤ dearest))
          Passed (λ s t. Below t) (plan_reply F C callback system_prompt task_id n) _ _
          (plan_reply-Ends n _ (
            omega (
              arith,
              left,
              ap total_cost (
                  steps-note F C callback system_prompt task_id n thinking
                    (guard_context F C callback system_prompt task_id n c)
                  ∙ steps-guard_context F C callback system_prompt task_id n c),
            )))
          (λ response t k. choose response t k (Bool-cases (has_tool_use response)))
      where
        choose :
            (response : LlmResponse) (t : Chat L W)
            → (total_cost t.steps < max_cost) × (response_cost response ≤ dearest)
            → (has_tool_use response ≡ true) ⊎ (has_tool_use response ≡ false)
            → Ends Passed
                (λ s t. Below t)
                ((if has_tool_use response
                    then (use_tools F C callback system_prompt task_id n response >> return none)
                    else complete_turn F C callback system_prompt task_id n response)
                  t)
        choose response t k (inl uses) = rw uses (
            Ends-bind (λ u t. Below t) Passed (λ s t. Below t)
              (use_tools F C callback system_prompt task_id n response) _ t
              (use_tools-Ends n response t k.0 k.1 uses) (λ u t' h. h))
        choose response t k (inr last) = rw last (complete_turn-Ends n response t k.0 k.1)

    turn_step-Ends :
        (n : ℕ) (c : Chat L W)
        → Below c
        → Ends Passed (λ s t. Below t) (turn_step F C callback system_prompt task_id max_cost n c)
    unfolding turn_step
    turn_step-Ends n c below = elim (Bool-cases (leb max_cost (total_cost c.steps))) [
      | inl spent ↦
          rw spent
            (below, sym (ap total_cost (steps-note F C callback system_prompt task_id n _ c)))
      | inr left ↦ rw left (take_turn_step-Ends n c (leb→lt _ _ left))
    ]

    turn_loop-Ends :
        (max_steps left n : ℕ) (c : Chat L W)
        → Below c
        → Ends Reports
            (λ s t. Below t)
            (turn_loop F C callback system_prompt task_id max_steps max_cost left n c)
    unfolding turn_loop turn_guard
    turn_loop-Ends max_steps zero n c below =
        (below, sym (ap total_cost (steps-note F C callback system_prompt task_id max_steps _ c)))
    turn_loop-Ends max_steps (suc left) n c below =
        Ends-bind Passed Reports (λ s t. Below t)
          (turn_step F C callback system_prompt task_id max_cost n) _ c (turn_step-Ends n c below)
          (onward (λ t below'. turn_loop-Ends max_steps left (n + 1) t below'))
      where
        onward :
            ((t : Chat L W)
              → Below t
              → Ends Reports
                  (λ s t. Below t)
                  (turn_loop F C callback system_prompt task_id max_steps max_cost left (n + 1) t))
            → (outcome : Option (Text × ℕ)) (t : Chat L W) → Passed outcome t
            → Ends Reports
                (λ s t. Below t)
                (go_on F C callback system_prompt task_id outcome
                  (turn_loop F C callback system_prompt task_id max_steps max_cost left (n + 1))
                  t)
        onward rest none t below' = rest t below'
        onward rest (some reply) t reports = reports

    finish_turn-Reports :
        (timeout : ℕ) (res : Result Stop (Text × ℕ)) (c : Chat L W)
        → Ends Reports (λ s t. Below t) (res, c)
        → let (reply, c') = finish_turn F C callback system_prompt task_id timeout res c in
          Reports reply c'
    unfolding finish_turn
    finish_turn-Reports timeout (ok reply) c h = h
    finish_turn-Reports timeout (err cancelled) c h =
        (h, sym (ap total_cost (steps-note F C callback system_prompt task_id _ _ c)))
    finish_turn-Reports timeout (err (raised exc)) c h =
        (h, sym (ap total_cost (steps-note F C callback system_prompt task_id _ _ c)))

    -- If no response costs more than `dearest`, then the cost that a turn of a conversation reports is
    -- at most its budget plus `dearest`, however the turn ends, and it is the sum over the turn's steps.
    pub run_conversation_turn_cost :
        (max_steps timeout : ℕ) (user_message : Text) (history : List Message)
        (events : List StepEvent) (l : L) (w : W)
        → let (reply, c) =
            run_conversation_turn F C callback system_prompt task_id max_steps max_cost timeout
              user_message history events l w in
          (reply.1 ≤ max_cost + dearest) × (reply.1 ≡ total_cost c.steps)
    unfolding run_conversation_turn
    run_conversation_turn_cost max_steps timeout user_message history events l w =
        finish_turn-Reports timeout _ _ (
          turn_loop-Ends max_steps max_steps 1
            (begin_turn F C callback system_prompt task_id user_message history events l w)
            (omega arith))
