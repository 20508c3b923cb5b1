-- ===== src/Agent/Controller/Permission/Laws.antt =====
-- No tool use is run without a check that allowed it.
use mathlib.Core.Path.{subst}
use agentic_ai_tee.Base.{
  ℕ, ◌≡◌, ◌⊎◌, inl, inr, refl, sym, ap, Bool, true, false, List, [], ◌∷◌, map, Text, arith,
}
use agentic_ai_tee.Base.Result.{ok}
use agentic_ai_tee.Base.Coroutine.{Coroutine, return, >>=-eq-ok}
use agentic_ai_tee.Agent.Models.{ToolUse, ToolCall, ToolOutput, Stop}
use agentic_ai_tee.Tools.Router.{Format}
use agentic_ai_tee.Agent.Controller.Gather.Laws.{All₂, run_jobs-All₂}
use agentic_ai_tee.Agent.Controller.Retry.{Executor, Job, attempt, move, settle}
use agentic_ai_tee.Agent.Controller.Retry.Gather.{JobFor, move-JobFor, settle-output}
use agentic_ai_tee.Agent.Controller.Loop.{start_call}
use agentic_ai_tee.Agent.Controller.Permission.{
  Policy, Scene, Call, asking, running, denied, check_permission, on_world, begin, move_call,
  settle_call, gather_calls,
}

module _ (F : Format) {W : Type 0} (X : Executor W) (policy : Policy W) (task_id : Text)
    (step_num : ℕ) where
  -- A check of the tool use that came to this answer, in some world.
  abbrev pub Checked : ToolUse → Bool → Type 0
  Checked block allowed =
      (scene : Scene W) × (scene' : Scene W) × (check_permission F X policy task_id step_num block
          scene
        ≡ (ok allowed, scene'))

  -- An output that some attempt of the call returned.
  abbrev pub Attempted : ToolCall → ToolOutput → Type 0
  Attempted call output = (w : W) × (w' : W) × (attempt F X call w ≡ (ok output, w'))

  -- The denial behind a check that refused, or what the call returned behind a check that allowed it.
  abbrev pub Answered : ToolUse → ToolOutput → Type 0
  Answered block output =
      (Checked block false × (output ≡ denied block))
      ⊎ (Checked block true × Attempted (start_call block) output)

  attempted :
      (call : ToolCall) (w w' : W) (o : ToolOutput)
      → attempt F X call w ≡ (ok o, w')
      → Attempted call o
  attempted call w w' o e = (w, w', e)

  -- What a job has behind it: its check, or the denial.
  abbrev Pending : ToolUse → Job → Type 0
  Pending block job =
      (Checked block false × (job ≡ Job.finished (denied block)))
      ⊎ (Checked block true × JobFor F X Attempted attempted (start_call block) job)

  abbrev Fits : ToolUse → Call → Type 0
  Fits block (asking b) = b ≡ block
  Fits block (running job) = Pending block job

  begin-Pending :
      (block : ToolUse) (allowed : Bool)
      → Checked block allowed
      → Pending block (begin F X policy task_id step_num block allowed)
  begin-Pending block true c = inr (c, refl)
  begin-Pending block false c = inl (c, refl)

  on_world-ok :
      {A : Type 0} (m : Coroutine Stop W A) (scene scene' : Scene W) (a : A)
      → on_world F X policy task_id step_num m scene ≡ (ok a, scene')
      → m scene.1 ≡ (ok a, scene'.1)
  on_world-ok m scene scene' a h = ap (λ p. (p.0, p.1.1)) h

  move-finished :
      (o : ToolOutput) (job' : Job) (w w' : W)
      → move F X (Job.finished o) w ≡ (ok job', w')
      → job' ≡ Job.finished o
  unfolding move
  move-finished o job' w w' h = ground arith

  settle-finished :
      (o output : ToolOutput) (w w' : W)
      → settle F X (Job.finished o) w ≡ (ok output, w')
      → output ≡ o
  unfolding settle
  settle-finished o output w w' h = ground arith

  move-Pending :
      (block : ToolUse) (job job' : Job) (w w' : W)
      → Pending block job
      → move F X job w ≡ (ok job', w')
      → Pending block job'
  move-Pending block job job' w w' (inl (c, e)) h =
      inl
        (c, move-finished (denied block) job' w w' (subst (λ j. move F X j w ≡ (ok job', w')) e h))
  move-Pending block job job' w w' (inr (c, fits)) h =
      inr (c, move-JobFor F X Attempted attempted (start_call block) job job' w w' fits h)

  settle-Pending :
      (block : ToolUse) (job : Job) (output : ToolOutput) (w w' : W)
      → Pending block job
      → settle F X job w ≡ (ok output, w')
      → Answered block output
  settle-Pending block job output w w' (inl (c, e)) h = inl (
    c,
    settle-finished (denied block) output w w' (subst (λ j. settle F X j w ≡ (ok output, w')) e h),
  )
  settle-Pending block job output w w' (inr (c, fits)) h =
      inr (c, settle-output F X Attempted attempted (start_call block) job w w' output fits h)

  checked :
      (block b : ToolUse) (allowed : Bool) (scene scene' : Scene W)
      → b ≡ block
      → check_permission F X policy task_id step_num b scene ≡ (ok allowed, scene')
      → Checked block allowed
  checked block b allowed scene scene' same e =
      subst (λ k. Checked k allowed) same (scene, scene', e)

  move_call-Fits :
      (block : ToolUse) (call call' : Call) (scene scene' : Scene W)
      → Fits block call
      → move_call F X policy task_id step_num call scene ≡ (ok call', scene')
      → Fits block call'
  unfolding move_call
  move_call-Fits block (asking b) call' scene scene' same h =
      let (allowed, scene1, asked, done) =
        >>=-eq-ok (check_permission F X policy task_id step_num b)
          (λ allowed. return (running (begin F X policy task_id step_num b allowed))) scene scene'
          call' h in
      subst (Fits block) {x = running (begin F X policy task_id step_num b allowed)} (ground arith)
        (subst (λ k. Pending block (begin F X policy task_id step_num k allowed)) (sym same)
          (begin-Pending block allowed (checked block b allowed scene scene1 same asked)))
  move_call-Fits block (running job) call' scene scene' pending h =
      let (job', scene1, moved, done) =
        >>=-eq-ok (on_world F X policy task_id step_num (move F X job))
          (λ job'. return (running job')) scene scene' call' h in
      subst (Fits block) {x = running job'} (ground arith) (
        move-Pending block job job' scene.1 scene1.1 pending
          (on_world-ok (move F X job) scene scene1 job' moved))

  settle_call-Answered :
      (block : ToolUse) (call : Call) (scene scene' : Scene W) (output : ToolOutput)
      → Fits block call
      → settle_call F X policy task_id step_num call scene ≡ (ok output, scene')
      → Answered block output
  unfolding settle_call
  settle_call-Answered block (asking b) scene scene' output same h =
      let (allowed, scene1, asked, done) =
        >>=-eq-ok (check_permission F X policy task_id step_num b)
          (λ allowed.
            on_world F X policy task_id step_num
              (settle F X (begin F X policy task_id step_num b allowed)))
          scene scene' output h in
      settle-Pending block (begin F X policy task_id step_num b allowed) output scene1.1 scene'.1
        (subst (λ k. Pending block (begin F X policy task_id step_num k allowed)) (sym same)
          (begin-Pending block allowed (checked block b allowed scene scene1 same asked)))
        (on_world-ok (settle F X (begin F X policy task_id step_num b allowed)) scene1 scene' output
          done)
  settle_call-Answered block (running job) scene scene' output pending h =
      settle-Pending block job output scene.1 scene'.1 pending
        (on_world-ok (settle F X job) scene scene' output h)

  asking-Fits : (bs : List ToolUse) → All₂ Fits bs (map asking bs)
  asking-Fits [] = tt
  asking-Fits (b ∷ bs) = (refl, asking-Fits bs)

  pub gather_calls-Answered :
      (schedule : List ℕ) (bs : List ToolUse) (outputs : List ToolOutput) (scene scene' : Scene W)
      → gather_calls F X policy task_id step_num schedule bs scene ≡ (ok outputs, scene')
      → All₂ Answered bs outputs
  unfolding gather_calls
  gather_calls-Answered schedule bs outputs scene scene' h =
      run_jobs-All₂ (move_call F X policy task_id step_num)
        (settle_call F X policy task_id step_num) Fits Answered move_call-Fits settle_call-Answered
        schedule bs (map asking bs) outputs scene scene' (asking-Fits bs) h
