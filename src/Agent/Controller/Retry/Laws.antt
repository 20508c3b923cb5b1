-- ===== src/Agent/Controller/Retry/Laws.antt =====
-- Attempts end with the first success or after the third, and outputs answer their calls in order.
use agentic_ai_tee.Base.{
  ℕ, zero, suc, ◌+◌, ◌≤◌, ◌≡◌, ◌⊎◌, inl, inr, true, false, arith, Bool-cases, if◌then◌else◌,
}
use agentic_ai_tee.Base.Result.{ok}
use agentic_ai_tee.Base.Coroutine.{Coroutine, return, ◌>>◌, >>=-eq-ok}
use agentic_ai_tee.Agent.Models.{ToolCall, ToolOutput, Stop}
use agentic_ai_tee.Tools.Router.{Format}
use agentic_ai_tee.Agent.Controller.Retry.{Executor, attempt, pause, retry, dispatch_with_retry}

module _ (F : Format) {W : Type 0} (X : Executor W) where
  -- So many attempts of a call, of which all but the last failed and were slept on.
  pub data Tries (call : ToolCall) : ℕ → ℕ → W → ToolOutput → W → Type 0 where
    last :
        {made : ℕ} {w w' : W} {o : ToolOutput}
        → attempt F X call w ≡ (ok o, w')
        → Tries call made 1 w o w'
    again :
        {made n : ℕ} {w w1 w2 w' : W} {failed o : ToolOutput}
        → attempt F X call w ≡ (ok failed, w1)
        → failed.success ≡ false
        → pause F X made w1 ≡ (ok tt, w2)
        → Tries call (made + 1) n w2 o w'
        → Tries call made (suc n) w o w'

  -- One attempt with more behind it was the last, or it failed and was slept on.
  abbrev Again : ℕ → ToolCall → ℕ → W → W → ToolOutput → Type 0
  Again left call made w w' o =
      (failed : ToolOutput) × (w1 : W) × (w2 : W) × (attempt F X call w ≡ (ok failed, w1))
      × (failed.success ≡ false)
      × (pause F X made w1 ≡ (ok tt, w2))
      × (retry F X left call (made + 1) w2 ≡ (ok o, w'))

  -- the loop behind an attempt
  abbrev after : ℕ → ToolCall → ℕ → ToolOutput → Coroutine Stop W ToolOutput
  after left call made output =
      if output.success then return output else (pause F X made >> retry F X left call (made + 1))

  retry-step :
      (left : ℕ) (call : ToolCall) (made : ℕ) (w w' : W) (o : ToolOutput)
      → retry F X (suc left) call made w ≡ (ok o, w')
      → ((attempt F X call w ≡ (ok o, w')) × (o.success ≡ true)) ⊎ Again left call made w w' o
  unfolding retry
  retry-step left call made w w' o h =
      let (first, w1, e, k) = >>=-eq-ok (attempt F X call) (after left call made) w w' o h in
      elim (Bool-cases first.success) [
        | inl success ↦ inl (ground arith, ground arith)
        | inr failure ↦
            let (u, w2, q, rest) =
              >>=-eq-ok (pause F X made) (λ _. retry F X left call (made + 1)) w1 w' o
                (ground arith) in
            inr (first, w1, w2, e, failure, q, rest)
      ]

  pub retry-Tries :
      (left : ℕ) (call : ToolCall) (made : ℕ) (w w' : W) (o : ToolOutput)
      → retry F X left call made w ≡ (ok o, w')
      → (n : ℕ) × Tries call made n w o w' × (n ≤ left + 1) × ((o.success ≡ true) ⊎ (n ≡ left + 1))
  unfolding retry
  retry-Tries zero call made w w' o h = (1, last h, omega arith, inr (omega arith))
  retry-Tries (suc left) call made w w' o h = elim (retry-step left call made w w' o h) [
    | inl (done, success) ↦ (1, last done, omega arith, inl success)
    | inr (failed, w1, w2, tried, failure, paused, rest) ↦
        let (n, tries, few, end) = retry-Tries left call (made + 1) w2 w' o rest in
        (
          suc n,
          again tried failure paused tries,
          omega arith,
          elim end [ inl s ↦ inl s | inr e ↦ inr (omega arith) ],
        )
  ]

  -- A call that returns an output has made one, two or three attempts, of which all but the last
  -- failed, and the output is that of the last one; with fewer than three attempts it is a success.
  pub dispatch_with_retry-Tries :
      (call : ToolCall) (w w' : W) (o : ToolOutput)
      → dispatch_with_retry F X call w ≡ (ok o, w')
      → (n : ℕ) × Tries call 0 n w o w' × (n ≤ 3) × ((o.success ≡ true) ⊎ (n ≡ 3))
  unfolding dispatch_with_retry
  dispatch_with_retry-Tries call w w' o h = retry-Tries 2 call 0 w w' o h
