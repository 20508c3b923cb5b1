-- ===== src/Agent/Controller/Gather/Laws.antt =====
-- Whatever the schedule, the outputs of gathered jobs stand in the order of the jobs.
use mathlib.Core.Path.{subst}
use agentic_ai_tee.Base.{ℕ, zero, suc, ◌≡◌, List, [], ◌∷◌, arith}
use agentic_ai_tee.Base.Result.{ok}
use agentic_ai_tee.Base.Coroutine.{Coroutine, return, ◌>>=◌, >>=-eq-ok}
use agentic_ai_tee.Agent.Models.{Stop}
use agentic_ai_tee.Agent.Controller.Gather.{move_at, run_schedule, settle_all, run_jobs}

-- The items of two lists are related one by one, and there are as many.
abbrev pub All₂ : {A B : Type 0} → (A → B → Type 0) → List A → List B → Type 0
All₂ R [] [] = Unit
All₂ R [] (b ∷ bs) = ⊥
All₂ R (a ∷ as_) [] = ⊥
All₂ R (a ∷ as_) (b ∷ bs) = R a b × All₂ R as_ bs

-- A move keeps a job one for its call, and what a job for a call settles to has `P` of the call.
module _ {W C J O : Type 0} (move : J → Coroutine Stop W J) (settle : J → Coroutine Stop W O)
    (Fits : C → J → Type 0) (P : C → O → Type 0)
    (moved : (call : C) (job job' : J) (w w' : W)
      → Fits call job
      → move job w ≡ (ok job', w')
      → Fits call job')
    (settled : (call : C) (job : J) (w w' : W) (o : O)
      → Fits call job
      → settle job w ≡ (ok o, w')
      → P call o) where
  abbrev AllFor : List C → List J → Type 0
  AllFor = All₂ Fits

  move_at-AllFor :
      (i : ℕ) (calls : List C) (jobs jobs' : List J) (w w' : W)
      → AllFor calls jobs
      → move_at move settle i jobs w ≡ (ok jobs', w')
      → AllFor calls jobs'
  unfolding move_at
  move_at-AllFor i calls [] jobs' w w' all h = subst (AllFor calls) {x = []} (ground arith) all
  move_at-AllFor i [] (job ∷ jobs) jobs' w w' all h = absurd all
  move_at-AllFor zero (call ∷ calls) (job ∷ jobs) jobs' w w' all h =
      let (job', w1, e_moved, k) =
        >>=-eq-ok (move job) (λ job'. return (job' ∷ jobs)) w w' jobs' h in
      subst (AllFor (call ∷ calls)) {x = job' ∷ jobs} (ground arith)
        (moved call job job' w w1 all.0 e_moved, all.1)
  move_at-AllFor (suc i) (call ∷ calls) (job ∷ jobs) jobs' w w' all h =
      let (rest, w1, e_moved, k) =
        >>=-eq-ok (move_at move settle i jobs) (λ rest. return (job ∷ rest)) w w' jobs' h in
      subst (AllFor (call ∷ calls)) {x = job ∷ rest} (ground arith)
        (all.0, move_at-AllFor i calls jobs rest w w1 all.1 e_moved)

  run_schedule-AllFor :
      (schedule : List ℕ) (calls : List C) (jobs jobs' : List J) (w w' : W)
      → AllFor calls jobs
      → run_schedule move settle schedule jobs w ≡ (ok jobs', w')
      → AllFor calls jobs'
  unfolding run_schedule
  run_schedule-AllFor [] calls jobs jobs' w w' all h =
      subst (AllFor calls) {x = jobs} (ground arith) all
  run_schedule-AllFor (i ∷ schedule) calls jobs jobs' w w' all h =
      let (mid, w1, e_moved, rest) =
        >>=-eq-ok (move_at move settle i jobs) (run_schedule move settle schedule) w w' jobs' h in
      run_schedule-AllFor schedule calls mid jobs' w1 w'
        (move_at-AllFor i calls jobs mid w w1 all e_moved) rest

  settle_all-AllFor :
      (calls : List C) (jobs : List J) (outputs : List O) (w w' : W)
      → AllFor calls jobs
      → settle_all move settle jobs w ≡ (ok outputs, w')
      → All₂ P calls outputs
  unfolding settle_all
  settle_all-AllFor [] [] outputs w w' all h = subst (All₂ P []) {x = []} (ground arith) tt
  settle_all-AllFor (call ∷ calls) [] outputs w w' all h = absurd all
  settle_all-AllFor [] (job ∷ jobs) outputs w w' all h = absurd all
  settle_all-AllFor (call ∷ calls) (job ∷ jobs) outputs w w' all h =
      let (o, w1, e_settled, k) =
        >>=-eq-ok (settle job) (λ o. settle_all move settle jobs >>= λ rest. return (o ∷ rest)) w w'
          outputs h in
      let (rest, w2, others, e) =
        >>=-eq-ok (settle_all move settle jobs) (λ rest. return (o ∷ rest)) w1 w' outputs k in
      subst (All₂ P (call ∷ calls)) {x = o ∷ rest} (ground arith) (
        settled call job w w1 o all.0 e_settled,
        settle_all-AllFor calls jobs rest w1 w2 all.1 others,
      )

  pub run_jobs-All₂ :
      (schedule : List ℕ) (calls : List C) (jobs : List J) (outputs : List O) (w w' : W)
      → All₂ Fits calls jobs
      → run_jobs move settle schedule jobs w ≡ (ok outputs, w')
      → All₂ P calls outputs
  unfolding run_jobs
  run_jobs-All₂ schedule calls jobs outputs w w' all h =
      let (mid, w1, scheduled, e) =
        >>=-eq-ok (run_schedule move settle schedule jobs) (settle_all move settle) w w' outputs
          h in
      settle_all-AllFor calls mid outputs w1 w'
        (run_schedule-AllFor schedule calls jobs mid w w1 all scheduled) e
