-- ===== src/Agent/Controller/Loop/Rule.antt =====
-- One rule for a pass of the step loop: an invariant of the view is kept if the model's call, the last
-- response and the tool uses of any other keep it.
use mathlib.Core.Path.{subst}
use agentic_ai_tee.Base.{
  ℕ, ◌+◌, ◌≡◌, refl, ap, sym, ◌∙◌, true, false, none, some, List, [], ◌∷◌, ◌++◌, map, if◌then◌else◌,
  Text, join, newline, suc, length, length-map, Bool-cases, ◌⊎◌, inl, inr,
}
use agentic_ai_tee.Base.Result.{Result, ok, err}
use agentic_ai_tee.Base.Coroutine.{return, ◌>>◌}
use agentic_ai_tee.Agent.Models.{
  user, assistant, blocks, ToolUse, ToolOutput, LlmResponse, TaskRequest, TaskResult, Stop,
  response_text, has_tool_use, tool_use_blocks, thinking,
}
use agentic_ai_tee.Tools.Registry.{build_tool_definitions}
use agentic_ai_tee.Tools.Router.{Format}
use agentic_ai_tee.Agent.Controller.Retry.{start, gather}
use agentic_ai_tee.Agent.Controller.Retry.Gather.{gather_in_order}
use agentic_ai_tee.Agent.Controller.Gather.Laws.{All₂}
use agentic_ai_tee.Agent.Controller.State.{Controller, Run, LlmRequest, total_cost}
use agentic_ai_tee.Agent.Controller.Loop.{
  say, plan_next_step, complete_task, final_step, say_tool_calls, append_message, run_tools,
  execute_tools, take_step, start_call, result_blocks,
}
use agentic_ai_tee.Agent.Controller.Loop.Invariant.{Ends, Goes, Ends-bind}
use agentic_ai_tee.Agent.Controller.Loop.View.{
  View, view, view-emit, view-emit_chunks, view-say_tool_calls, recorded, view-record_outputs,
}

pub length-All₂ :
    {A B : Type 0} (R : A → B → Type 0) (xs : List A) (ys : List B)
    → All₂ R xs ys
    → length ys ≡ length xs
length-All₂ R [] [] h = refl
length-All₂ R [] (y ∷ ys) h = absurd h
length-All₂ R (x ∷ xs) [] h = absurd h
length-All₂ R (x ∷ xs) (y ∷ ys) h = ap suc (length-All₂ R xs ys h.1)

Ends-view :
    {E L W A : Type 0} (P : A → View L → Type 0) (X : E → View L → Type 0) (res : Result E A)
    (t : Run L W) (v : View L)
    → view t ≡ v
    → Ends P X (res, v)
    → Ends (λ a u. P a (view u)) (λ e u. X e (view u)) (res, t)
Ends-view P X (ok a) t v e h = subst (P a) (sym e) h
Ends-view P X (err s) t v e h = subst (X s) (sym e) h

module _ (F : Format) (sha3 : Text → Text) {L W : Type 0} (C : Controller L W) (task : TaskRequest)
    (system_prompt : Text) where
  -- What the model is asked in a view.
  abbrev pub request : ℕ → View L → LlmRequest
  request n v = record {
    system = system_prompt;
    messages = v.messages;
    tools = build_tool_definitions C.executor.registry;
    max_tokens = 4096;
    task_id = task.task_id;
    step_number = n;
    enable_thinking = C.enable_thinking;
  }

  -- How a call of the model in a view ends.
  abbrev pub asked : ℕ → View L → Result Stop LlmResponse × View L
  asked n v =
      let (response, chunks, l) = C.llm (request n v) v.llm_state in
      (response, record v { llm_state = l })

  abbrev pub finished : ℕ → LlmResponse → View L → View L
  finished n response v = record v {
    steps = v.steps ++ (final_step n response ∷ []);
    hash_parts = v.hash_parts ++ (response_text response ∷ []);
  }

  abbrev pub calling : LlmResponse → View L → View L
  calling response v = record v {
    messages = v.messages ++ (record { role = assistant; content = blocks response.content } ∷ []);
  }

  abbrev pub answering : LlmResponse → List ToolOutput → View L → View L
  answering response os v = record v {
    messages =
        v.messages
        ++ (record { role = user; content = blocks (result_blocks F (tool_use_blocks response) os) }
            ∷ []);
  }

  -- The view behind a response with tool uses.
  abbrev pub answered : ℕ → LlmResponse → List ToolOutput → View L → View L
  answered n response os v =
      answering response os
        (recorded F sha3 C task n response true (tool_use_blocks response) os (calling response v))

  -- The results of a completed and of a failed task in a view.
  abbrev pub success : ℕ → LlmResponse → View L → TaskResult
  success n response v = record {
    task_id = task.task_id;
    success = true;
    summary = response_text response;
    steps = (finished n response v).steps;
    total_cost_usd = total_cost (finished n response v).steps;
    attestation_hash = sha3 (join newline (finished n response v).hash_parts);
    error = none;
  }

  abbrev pub failure : Text → Text → View L → TaskResult
  failure summary error_text v = record {
    task_id = task.task_id;
    success = false;
    summary = summary;
    steps = v.steps;
    total_cost_usd = total_cost v.steps;
    attestation_hash = [];
    error = some error_text;
  }

  -- In this world the calls of a step are stopped.
  abbrev pub Stops : ℕ → List ToolUse → W → Stop → Type 0
  Stops n bs w s =
      (w' : W) × (gather F C.executor (C.schedule n) (map start (map start_call bs)) w
        ≡ (err s, w'))

  module _ (I : ℕ → View L → Type 0) (K : ℕ → LlmResponse → View L → Type 0)
      (Q : TaskResult → View L → Type 0) (X : Stop → View L → Type 0) where
    abbrev Q' : TaskResult → Run L W → Type 0
    Q' result r = Q result (view r)

    abbrev X' : Stop → Run L W → Type 0
    X' s r = X s (view r)

    plan-Ends :
        (n : ℕ) (r : Run L W)
        → Ends (K n) X (asked n (view r))
        → Ends
            (λ response t. K n response (view t))
            X'
            (plan_next_step F sha3 C task system_prompt n r)
    unfolding plan_next_step
    plan-Ends n r h =
        Ends-view (K n) X _ _ _
          (view-emit_chunks C.streaming task.task_id n _
            (record r { llm_state = (C.llm (request n (view r)) r.llm_state).2 }))
          h

    complete-Ends :
        (n : ℕ) (response : LlmResponse) (r : Run L W)
        → Q (success n response (view r)) (finished n response (view r))
        → Ends (Goes (λ t. I (n + 1) (view t)) Q') X' (complete_task F sha3 C task n response r)
    unfolding complete_task
    complete-Ends n response r h =
        subst (Q (success n response (view r))) (sym (view-emit C.streaming _ _)) h

    -- A gathered step has as many outputs as tool uses, and leaves the view alone.
    Ran : List ToolUse → View L → List ToolOutput → Run L W → Type 0
    Ran bs v os t = (length os ≡ length bs) × (view t ≡ v)

    gathered-Ends :
        (bs : List ToolUse) (n : ℕ) (r : Run L W) (res : Result Stop (List ToolOutput)) (w : W)
        → gather F C.executor (C.schedule n) (map start (map start_call bs)) r.world ≡ (res, w)
        → ((s : Stop) → Stops n bs r.world s → X s (view r))
        → Ends (Ran bs (view r)) X' (res, record r { world = w })
    unfolding Ran
    gathered-Ends bs n r (ok os) w e h = (
      length-All₂ _ (map start_call bs) os (
            gather_in_order F C.executor (λ call o. Unit {0}) (λ call u u' o q. tt) (C.schedule n)
              (map start_call bs) os r.world w e)
          ∙ length-map start_call bs,
      refl,
    )
    gathered-Ends bs n r (err s) w e h = h s (w, e)

    run_tools-Ends :
        (n : ℕ) (bs : List ToolUse) (r : Run L W)
        → ((s : Stop) → Stops n bs r.world s → X s (view r))
        → Ends (Ran bs (view r)) X' (run_tools F sha3 C task n bs r)
    unfolding run_tools
    run_tools-Ends n bs r h = gathered-Ends bs n r _ _ refl h

    execute_tools-Ends :
        (n : ℕ) (response : LlmResponse) (r : Run L W)
        → ((w : W) (s : Stop)
            → Stops n (tool_use_blocks response) w s
            → X s (calling response (view r)))
        → ((os : List ToolOutput)
            → length os ≡ length (tool_use_blocks response)
            → I (n + 1) (answered n response os (view r)))
        → Ends (λ u t. I (n + 1) (view t)) X' (execute_tools F sha3 C task n response r)
    unfolding execute_tools Ran
    execute_tools-Ends n response r stopped ran =
        let bs = tool_use_blocks response in
        let r1 =
          append_message F sha3 C task
            (record { role = assistant; content = blocks response.content }) r in
        let called : view (say_tool_calls F sha3 C task n bs r1) ≡ calling response (view r) =
          view-say_tool_calls F sha3 C task n bs r1 in
        Ends-bind (Ran bs (view (say_tool_calls F sha3 C task n bs r1))) _ X'
          (run_tools F sha3 C task n bs) _ (say_tool_calls F sha3 C task n bs r1)
          (run_tools-Ends n bs (say_tool_calls F sha3 C task n bs r1)
            (λ s stops. subst (X s) (sym called) (stopped _ s stops)))
          (λ os t ran_t.
            subst (I (n + 1))
              (sym (
                ap (answering response os) (
                  view-record_outputs F sha3 C task n response true bs os t
                  ∙ ap (recorded F sha3 C task n response true bs os) (ran_t.1 ∙ called))))
              (ran os ran_t.0))

    pub take_step-Ends :
        (n : ℕ) (r : Run L W)
        → Ends (K n) X (asked n (view r))
        → ((response : LlmResponse) (v : View L)
            → K n response v
            → has_tool_use response ≡ false
            → Q (success n response v) (finished n response v))
        → ((response : LlmResponse) (v : View L) (w : W) (s : Stop)
            → K n response v
            → has_tool_use response ≡ true
            → Stops n (tool_use_blocks response) w s
            → X s (calling response v))
        → ((response : LlmResponse) (v : View L) (os : List ToolOutput)
            → K n response v
            → has_tool_use response ≡ true
            → length os ≡ length (tool_use_blocks response)
            → I (n + 1) (answered n response os v))
        → Ends (Goes (λ t. I (n + 1) (view t)) Q') X' (take_step F sha3 C task system_prompt n r)
    unfolding take_step
    take_step-Ends n r planned done stopped ran =
        let r1 = say F sha3 C task n thinking r in
        Ends-bind (λ response t. K n response (view t)) _ X'
          (plan_next_step F sha3 C task system_prompt n) _ r1
          (plan-Ends n r1
            (subst (λ v. Ends (K n) X (asked n v)) (sym (view-emit C.streaming _ r)) planned))
          (λ response t k. choose response t k (Bool-cases (has_tool_use response)))
      where
        choose :
            (response : LlmResponse) (t : Run L W)
            → K n response (view t)
            → (has_tool_use response ≡ true) ⊎ (has_tool_use response ≡ false)
            → Ends (Goes (λ t. I (n + 1) (view t)) Q') X' (
                (if has_tool_use response
                    then (execute_tools F sha3 C task n response >> return none)
                    else complete_task F sha3 C task n response)
                  t)
        choose response t k (inl uses) = rw uses (
            Ends-bind (λ u t. I (n + 1) (view t)) _ X' (execute_tools F sha3 C task n response) _ t
              (execute_tools-Ends n response t
                (λ w s stops. stopped response (view t) w s k uses stops)
                (λ os e. ran response (view t) os k uses e))
              (λ u t' h. h))
        choose response t k (inr last) =
            rw last (complete-Ends n response t (done response (view t) k last))
