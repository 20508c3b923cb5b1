-- ===== src/Agent/Controller/Retry/Unstopped.antt =====
-- Tool calls that nothing stops: if no attempt and no pause is stopped, then no gathered step is.
use agentic_ai_tee.Base.{
  ℕ, zero, suc, ◌+◌, ◌*◌, ◌≡◌, refl, Bool, true, false, if◌then◌else◌, List, [], ◌∷◌, arith,
}
use agentic_ai_tee.Base.Result.{Result, ok, err}
use agentic_ai_tee.Base.Coroutine.{Coroutine, return, after, ◌>>=◌}
use agentic_ai_tee.Agent.Models.{ToolCall, Stop}
use agentic_ai_tee.Tools.Router.{Format}
use agentic_ai_tee.Agent.Controller.Gather.{move_at, run_schedule, settle_all, run_jobs}
use agentic_ai_tee.Agent.Controller.Retry.{
  Executor, Job, waiting, finished, attempt, pause, move, retry, settle, gather, tool_retry_delay,
}

-- Started in any world, it returns.
abbrev pub Returns : {A W : Type 0} → Coroutine Stop W A → Type 0
Returns {A} {W} m = (w w' : W) (s : Stop) → m w ≡ (err s, w') → ⊥

module _ {W : Type 0} where
  return-Returns : {A : Type 0} (a : A) → Returns {W = W} (return a)
  return-Returns a w w' s h = absurd (ground arith)

  >>=-Returns :
      {A B : Type 0} (m : Coroutine Stop W A) (f : A → Coroutine Stop W B)
      → Returns m
      → ((a : A) → Returns (f a))
      → Returns (m >>= f)
  >>=-Returns {A} {B} m f hm hf w w' s h = split (m w) refl h
    where
      split : (r : Result Stop A × W) → m w ≡ r → after f r ≡ (err s, w') → ⊥
      split (ok a, w1) e k = hf a w1 w' s k
      split (err t, w1) e k = hm w w1 t e

  if-Returns :
      {A : Type 0} (b : Bool) (m k : Coroutine Stop W A)
      → Returns m
      → Returns k
      → Returns (if b then m else k)
  if-Returns true m k hm hk = hm
  if-Returns false m k hm hk = hk

  module _ {J O : Type 0} (step : J → Coroutine Stop W J) (finish : J → Coroutine Stop W O)
      (steps : (j : J) → Returns (step j)) (finishes : (j : J) → Returns (finish j)) where
    move_at-Returns : (i : ℕ) (js : List J) → Returns (move_at step finish i js)
    unfolding move_at
    move_at-Returns i [] = return-Returns []
    move_at-Returns zero (j ∷ js) =
        >>=-Returns (step j) _ (steps j) (λ j'. return-Returns (j' ∷ js))
    move_at-Returns (suc i) (j ∷ js) =
        >>=-Returns (move_at step finish i js) _ (move_at-Returns i js)
          (λ js'. return-Returns (j ∷ js'))

    run_schedule-Returns : (is : List ℕ) (js : List J) → Returns (run_schedule step finish is js)
    unfolding run_schedule
    run_schedule-Returns [] js = return-Returns js
    run_schedule-Returns (i ∷ is) js =
        >>=-Returns (move_at step finish i js) _ (move_at-Returns i js) (run_schedule-Returns is)

    settle_all-Returns : (js : List J) → Returns (settle_all step finish js)
    unfolding settle_all
    settle_all-Returns [] = return-Returns []
    settle_all-Returns (j ∷ js) = >>=-Returns (finish j) _ (finishes j) (λ o.
        >>=-Returns (settle_all step finish js) _ (settle_all-Returns js)
          (λ os. return-Returns (o ∷ os)))

    run_jobs-Returns : (is : List ℕ) (js : List J) → Returns (run_jobs step finish is js)
    unfolding run_jobs
    run_jobs-Returns is js =
        >>=-Returns (run_schedule step finish is js) _ (run_schedule-Returns is js)
          settle_all-Returns

module _ (F : Format) {W : Type 0} (X : Executor W)
    (attempts : (call : ToolCall) → Returns (attempt F X call))
    (sleeps : (ms : ℕ) (w : W) → (X.sleep ms w).0 ≡ true) where
  pause-Returns : (made : ℕ) → Returns (pause F X made)
  unfolding pause
  pause-Returns made w w' s h = absurd (ground (arith, sleeps (tool_retry_delay * (made + 1)) w))

  move-Returns : (j : Job) → Returns (move F X j)
  unfolding move
  move-Returns (finished o) = return-Returns (finished o)
  move-Returns (waiting call made zero) =
      >>=-Returns (attempt F X call) _ (attempts call) (λ o. return-Returns (finished o))
  move-Returns (waiting call made (suc left)) =
      >>=-Returns (attempt F X call) _ (attempts call) (λ o.
        if-Returns o.success _ _ (return-Returns (finished o)) (
          >>=-Returns (pause F X made) _ (pause-Returns made)
            (λ u. return-Returns (waiting call (made + 1) left))))

  retry-Returns : (left : ℕ) (call : ToolCall) (made : ℕ) → Returns (retry F X left call made)
  unfolding retry
  retry-Returns zero call made = attempts call
  retry-Returns (suc left) call made = >>=-Returns (attempt F X call) _ (attempts call) (λ o.
      if-Returns o.success _ _ (return-Returns o) (
        >>=-Returns (pause F X made) _ (pause-Returns made)
          (λ u. retry-Returns left call (made + 1))))

  settle-Returns : (j : Job) → Returns (settle F X j)
  unfolding settle
  settle-Returns (finished o) = return-Returns o
  settle-Returns (waiting call made left) = retry-Returns left call made

  -- A step returns if no attempt and no pause is stopped.
  pub gather-Returns : (schedule : List ℕ) (js : List Job) → Returns (gather F X schedule js)
  unfolding gather
  gather-Returns schedule js =
      run_jobs-Returns (move F X) (settle F X) move-Returns settle-Returns schedule js
