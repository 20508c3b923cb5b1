-- ===== src/Agent/Controller/Loop/Integrity.antt =====
-- What the hash of a finished task commits to.
use mathlib.Core.List.{map-append}
use agentic_ai_tee.Base.{
  ℕ, ◌≡◌, ◌≢◌, ◌⊎◌, inl, inr, refl, ap, Bool, true, false, none, some, List, [], ◌∷◌, ◌++◌, map,
  Text, codes, join, newline,
}
use agentic_ai_tee.Base.Result.{Result, ok, err}
use agentic_ai_tee.Agent.Models.{
  ToolUse, ToolOutput, LlmResponse, StepResult, StepEvent, TaskRequest, TaskResult, Stop,
  response_text,
}
use agentic_ai_tee.Tools.Router.{Format}
use agentic_ai_tee.Agent.Controller.State.{Controller}
use agentic_ai_tee.Agent.Controller.Loop.{run_task, tool_step, final_step}
use agentic_ai_tee.Agent.Controller.Loop.Invariant.{Ends}
use agentic_ai_tee.Agent.Controller.Loop.View.{View, tool_steps, tool_parts}
use agentic_ai_tee.Agent.Controller.Loop.Rule.{request, asked}
use agentic_ai_tee.Agent.Controller.Loop.Kept.{IsKept, run_task-Kept}

-- What a step adds to the hashed text: the tool's name and result, or the last response.
abbrev pub step_part : Format → StepResult → Text
step_part F s = elim s.tool_name [
  | none ↦ s.llm_response
  | some name ↦ name ++ (codes ":" ++ (elim s.output [ none ↦ [] | some o ↦ F.str_value o.result ]))
]

abbrev pub hashed_text : Format → TaskRequest → List StepResult → Text
hashed_text F task steps = join newline (task.description ∷ map (step_part F) steps)

map-tool_steps :
    (F : Format) (n : ℕ) (response : LlmResponse) (first : Bool) (bs : List ToolUse)
    (os : List ToolOutput)
    → map (step_part F) (tool_steps n response first bs os) ≡ tool_parts F bs os
unfolding tool_step
map-tool_steps F n response first (b ∷ bs) (o ∷ os) = rw (map-tool_steps F n response false bs os)
map-tool_steps F n response first [] os = refl
map-tool_steps F n response first (b ∷ bs) [] = refl

module _ (F : Format) (sha3 : Text → Text) {L W : Type 0} (C : Controller L W) (task : TaskRequest)
    (system_prompt : Text) where
  abbrev IsHashed : View L → Type 0
  IsHashed v = v.hash_parts ≡ task.description ∷ map (step_part F) v.steps

  IsHashed-append :
      (v : View L) (steps : List StepResult) (parts : List Text)
      → IsHashed v
      → map (step_part F) steps ≡ parts
      → v.hash_parts ++ parts ≡ task.description ∷ map (step_part F) (v.steps ++ steps)
  IsHashed-append v steps parts h e = cc (map-append (step_part F) v.steps steps)

  -- A success carries no error and the hash of its text, a failure an error and no hash.
  abbrev pub IsAttested : TaskResult → Type 0
  IsAttested result =
      ((result.success ≡ true)
        × (result.error ≡ none)
        × (result.attestation_hash ≡ sha3 (hashed_text F task result.steps)))
      ⊎ ((result.success ≡ false) × (result.error ≢ none) × (result.attestation_hash ≡ []))

  request-IsHashed :
      (n : ℕ) (v : View L) (h : IsHashed v)
      → Ends (λ response t. IsHashed t) (λ s t. Unit {0}) (asked F sha3 C task system_prompt n v)
  request-IsHashed n v h = answer (C.llm (request F sha3 C task system_prompt n v) v.llm_state).0
    where
      answer :
          (res : Result Stop LlmResponse)
          → Ends
              (λ response t. IsHashed t)
              (λ s t. Unit {0})
              (
                res,
                record v {
                  llm_state = (C.llm (request F sha3 C task system_prompt n v) v.llm_state).2;
                },
              )
      answer (ok response) = h
      answer (err s) = tt

  kept :
      (max_steps max_cost : ℕ)
      → IsKept F sha3 C task system_prompt max_steps max_cost
          (λ n v. IsHashed v)
          (λ n response v. IsHashed v)
          (λ result v. IsAttested result)
          (λ s v. Unit {0})
  unfolding final_step
  kept max_steps max_cost = record {
    planned = λ n v early h fits. request-IsHashed n v h;
    done = λ n response v h last. inl (
      refl,
      refl,
      ap (λ ps. sha3 (join newline ps))
          (IsHashed-append v (final_step n response ∷ []) (response_text response ∷ []) h refl),
    );
    stopped = λ n response v w s h uses stops. tt;
    ran =
        λ n response v os h uses e. IsHashed-append v _ _ h (map-tool_steps F n response true _ os);
    over = λ n v summary error_text h why. inr (refl, λ e. cc, refl);
  }

  -- However a task ends, either it succeeded without an error, and its hash is the digest of the
  -- description followed by what each step of the result reports (the name and result of a tool, the
  -- last response), in order, one to a line; or it failed with an error and an empty hash.
  pub run_task-IsAttested :
      (events : List StepEvent) (l : L) (w : W)
      → IsAttested (run_task F sha3 C task system_prompt events l w).0
  run_task-IsAttested events l w =
      run_task-Kept F sha3 C task system_prompt (λ n v. IsHashed v) (λ n response v. IsHashed v)
        (λ result v. IsAttested result) (λ s v. Unit {0}) (λ result v. IsAttested result) (kept _ _)
        (λ result v h. h) (λ s v summary error_text h. inr (refl, λ e. cc, refl)) events l w refl
