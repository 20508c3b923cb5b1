-- ===== src/Agent/Controller/Retry/Gather.antt =====
-- Whatever the schedule, the outputs of a gathered step stand in the order of their calls.
use mathlib.Core.Path.{subst}
use agentic_ai_tee.Base.{
  ℕ, zero, suc, ◌+◌, ◌≡◌, refl, List, [], ◌∷◌, map, arith, Bool-cases, if◌then◌else◌, inl, inr,
}
use agentic_ai_tee.Base.Result.{ok}
use agentic_ai_tee.Base.Coroutine.{Coroutine, return, ◌>>◌, >>=-eq-ok}
use agentic_ai_tee.Agent.Models.{ToolCall, ToolOutput, Stop}
use agentic_ai_tee.Tools.Router.{Format}
use agentic_ai_tee.Agent.Controller.Retry.{
  Executor, Job, waiting, finished, attempt, pause, move, settle, start, gather,
}
use agentic_ai_tee.Agent.Controller.Gather.Laws.{All₂, run_jobs-All₂}
use agentic_ai_tee.Agent.Controller.Retry.Laws.{Tries, last, again, retry-Tries}

module _ (F : Format) {W : Type 0} (X : Executor W) (P : ToolCall → ToolOutput → Type 0)
    (attempted : (call : ToolCall) (w w' : W) (o : ToolOutput)
      → attempt F X call w ≡ (ok o, w')
      → P call o) where
  -- A job is on its way with its own call, or has an output that fits the call.
  abbrev pub JobFor : ToolCall → Job → Type 0
  JobFor call (waiting c made left) = c ≡ call
  JobFor call (finished o) = P call o

  JobFor-output :
      (call c : ToolCall) (w w1 : W) (o : ToolOutput) (job : Job)
      → c ≡ call
      → attempt F X c w ≡ (ok o, w1)
      → finished o ≡ job
      → JobFor call job
  JobFor-output call c w w1 o job same e done =
      subst (JobFor call) done (subst (λ k. P k o) same (attempted c w w1 o e))

  -- the pass behind an attempt
  abbrev passed : ToolCall → ℕ → ℕ → ToolOutput → Coroutine Stop W Job
  passed c made left output =
      if output.success
      then return (finished output)
      else (pause F X made >> return (waiting c (made + 1) left))

  -- An attempt of the job's call, and then the job is finished with its output, or it waits on.
  pub move-JobFor :
      (call : ToolCall) (job job' : Job) (w w' : W)
      → JobFor call job
      → move F X job w ≡ (ok job', w')
      → JobFor call job'
  unfolding move
  move-JobFor call (finished o) job' w w' good h =
      subst (JobFor call) {x = finished o} (ground arith) good
  move-JobFor call (waiting c made zero) job' w w' same h =
      let (o, w1, e, k) = >>=-eq-ok (attempt F X c) (λ o. return (finished o)) w w' job' h in
      JobFor-output call c w w1 o job' same e (ground arith)
  move-JobFor call (waiting c made (suc left)) job' w w' same h =
      let (o, w1, e, k) = >>=-eq-ok (attempt F X c) (passed c made left) w w' job' h in
      elim (Bool-cases o.success) [
        | inl success ↦ JobFor-output call c w w1 o job' same e (ground arith)
        | inr failure ↦
            let (u, w2, q, rest) =
              >>=-eq-ok (pause F X made) (λ _. return (waiting c (made + 1) left)) w1 w' job'
                (ground arith) in
            subst (JobFor call) {x = waiting c (made + 1) left} (ground arith) same
      ]

  Tries-output :
      {call : ToolCall} {made n : ℕ} {w w' : W} {o : ToolOutput}
      → Tries F X call made n w o w'
      → P call o
  Tries-output (last e) = attempted _ _ _ _ e
  Tries-output (again e f p t) = Tries-output t

  pub settle-output :
      (call : ToolCall) (job : Job) (w w' : W) (o : ToolOutput)
      → JobFor call job
      → settle F X job w ≡ (ok o, w')
      → P call o
  unfolding settle
  settle-output call (finished output) w w' o good h =
      subst (P call) {x = output} (ground arith) good
  settle-output call (waiting c made left) w w' o same h =
      subst (λ k. P k o) same (Tries-output (retry-Tries F X left c made w w' o h).1)

  start-JobFor : (calls : List ToolCall) → All₂ JobFor calls (map start calls)
  start-JobFor [] = tt
  start-JobFor (call ∷ calls) = (refl, start-JobFor calls)

  -- Whatever holds of each output that a dispatch of a call returns, in any world, holds of the
  -- outputs of a gathered step call by call: there are as many outputs as calls, and each stands at
  -- the place of its call, whatever the interleaving of the attempts.
  pub gather_in_order :
      (schedule : List ℕ) (calls : List ToolCall) (outputs : List ToolOutput) (w w' : W)
      → gather F X schedule (map start calls) w ≡ (ok outputs, w')
      → All₂ P calls outputs
  unfolding gather
  gather_in_order schedule calls outputs w w' h =
      run_jobs-All₂ (move F X) (settle F X) JobFor P move-JobFor settle-output schedule calls
        (map start calls) outputs w w' (start-JobFor calls) h
