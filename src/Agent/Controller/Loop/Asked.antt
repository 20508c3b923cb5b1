-- ===== src/Agent/Controller/Loop/Asked.antt =====
-- The call of the model in a view: what holds of every answer and of every stop holds of its end.
use agentic_ai_tee.Base.{ℕ, ◌≡◌, refl, Text}
use agentic_ai_tee.Base.Result.{Result, ok, err}
use agentic_ai_tee.Agent.Models.{LlmResponse, TaskRequest, Stop}
use agentic_ai_tee.Tools.Router.{Format}
use agentic_ai_tee.Agent.Controller.State.{Controller}
use agentic_ai_tee.Agent.Controller.Loop.Invariant.{Ends}
use agentic_ai_tee.Agent.Controller.Loop.View.{View}
use agentic_ai_tee.Agent.Controller.Loop.Rule.{request, asked}

module _ (F : Format) (sha3 : Text → Text) {L W : Type 0} (C : Controller L W) (task : TaskRequest)
    (system_prompt : Text) where
  -- the state of the client behind a call, and the call's outcome
  abbrev pub client_behind : ℕ → View L → L
  client_behind n v = (C.llm (request F sha3 C task system_prompt n v) v.llm_state).2

  abbrev pub answer_of : ℕ → View L → Result Stop LlmResponse
  answer_of n v = (C.llm (request F sha3 C task system_prompt n v) v.llm_state).0

  pub asked-Ends :
      (P : LlmResponse → View L → Type 0) (X : Stop → View L → Type 0) (n : ℕ) (v : View L)
      → ((response : LlmResponse)
          → answer_of n v ≡ ok response
          → P response (record v { llm_state = client_behind n v }))
      → ((s : Stop) → answer_of n v ≡ err s → X s (record v { llm_state = client_behind n v }))
      → Ends P X (asked F sha3 C task system_prompt n v)
  asked-Ends P X n v answers stops = settle (answer_of n v) refl
    where
      settle :
          (res : Result Stop LlmResponse)
          → answer_of n v ≡ res
          → Ends P X (res, record v { llm_state = client_behind n v })
      settle (ok response) e = answers response e
      settle (err s) e = stops s e
