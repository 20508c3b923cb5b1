-- ===== src/Agent/Controller/Loop/Invariant.antt =====
-- Invariants of the step loop: what every pass keeps holds at its end, however it ends.
use agentic_ai_tee.Base.{ℕ, zero, suc, ◌+◌, ◌≤◌, ◌≡◌, Option, none, some, Text, arith}
use agentic_ai_tee.Base.Result.{Result, ok, err}
use agentic_ai_tee.Base.Coroutine.{Coroutine, after, ◌>>=◌}
use agentic_ai_tee.Agent.Models.{TaskRequest, TaskResult, Stop}
use agentic_ai_tee.Tools.Router.{Format}
use agentic_ai_tee.Agent.Controller.State.{Controller, Run}
use agentic_ai_tee.Agent.Controller.Loop.{run_step, run_step_loop, onward, max_steps_guard}

-- How a coroutine ended: with a result and a state, or stopped in a state.
abbrev pub Ends : {E S A : Type 0} → (A → S → Type 0) → (E → S → Type 0) → Result E A × S → Type 0
Ends Q E (ok a, s) = Q a s
Ends Q E (err e, s) = E e s

-- How a pass ended: the loop goes on with the next step number, or it returns.
abbrev pub Goes :
    {S : Type 0} → (S → Type 0) → (TaskResult → S → Type 0) → Option TaskResult → S → Type 0
Goes I Q none s = I s
Goes I Q (some result) s = Q result s

-- A sequence ends well if its first part does and what follows does from there.
module _ {E S A B : Type 0} (P : A → S → Type 0) (Q : B → S → Type 0) (X : E → S → Type 0) where
  Ends-after :
      (f : A → Coroutine E S B) (p : Result E A × S)
      → Ends P X p
      → ((a : A) (t : S) → P a t → Ends Q X (f a t))
      → Ends Q X (after f p)
  Ends-after f (ok a, t) h k = k a t h
  Ends-after f (err e, t) h k = h

  pub Ends-bind :
      (m : Coroutine E S A) (f : A → Coroutine E S B) (s : S)
      → Ends P X (m s)
      → ((a : A) (t : S) → P a t → Ends Q X (f a t))
      → Ends Q X ((m >>= f) s)
  Ends-bind m f s = Ends-after f (m s)

module _ (F : Format) (sha3 : Text → Text) {L W : Type 0} (C : Controller L W) (task : TaskRequest)
    (system_prompt : Text) (max_steps max_cost : ℕ) (I : ℕ → Run L W → Type 0)
    (Q : TaskResult → Run L W → Type 0) (X : Stop → Run L W → Type 0)
    (pass : (n : ℕ) (r : Run L W)
      → n ≤ max_steps
      → I n r
      → Ends (Goes (I (n + 1)) Q) X (run_step F sha3 C task system_prompt max_cost n r))
    (guard : (n : ℕ) (r : Run L W)
      → n ≡ max_steps + 1
      → I n r
      → Ends Q X (max_steps_guard F sha3 C task max_steps r)) where
  onward-Ends :
      (J : Run L W → Type 0) (rest : Coroutine Stop (Run L W) TaskResult)
      → ((t : Run L W) → J t → Ends Q X (rest t))
      → (outcome : Option TaskResult) (t : Run L W) → Goes J Q outcome t
      → Ends Q X (onward F sha3 C task outcome rest t)
  onward-Ends J rest k none t g = k t g
  onward-Ends J rest k (some result) t g = g

  -- If every pass up to the last step number keeps the invariant or ends well, and the guard behind the last pass ends well,
  -- then the loop does, from any state with the invariant.
  pub run_step_loop-Ends :
      (left n : ℕ) (r : Run L W)
      → n + left ≡ max_steps + 1
      → I n r
      → Ends Q X (run_step_loop F sha3 C task system_prompt max_steps max_cost left n r)
  unfolding run_step_loop
  run_step_loop-Ends zero n r e h = guard n r (omega arith) h
  run_step_loop-Ends (suc left) n r e h =
      Ends-bind (Goes (I (n + 1)) Q) Q X (run_step F sha3 C task system_prompt max_cost n) _ r
        (pass n r (omega arith) h)
        (onward-Ends (I (n + 1)) _ (λ t. run_step_loop-Ends left (n + 1) t (omega arith)))
