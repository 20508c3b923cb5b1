-- ===== src/Agent/LlmClient/Convert/Laws.antt =====
-- The conversation that an OpenAI-compatible interface receives.
use mathlib.Core.Path.{subst}
use agentic_ai_tee.Base.{
  ◌≡◌, refl, sym, ap, inl, inr, Bool-cases, false, List, [], ◌∷◌, ◌++◌, map, any, All, Text, Fields,
  arith,
}
use agentic_ai_tee.Agent.Models.{
  ContentBlock, text_block, thinking_block, tool_use_block, tool_result_block, Content, plain,
  blocks, Message, Role, user, assistant, LlmResponse, StepEvent, TaskRequest,
}
use agentic_ai_tee.Agent.Controller.Context.Laws.{
  call_ids, answer_ids, calls, answers, HasRole, Follows, Turns,
}
use agentic_ai_tee.Base.Result.{ok}
use agentic_ai_tee.Tools.Router.{Format}
use agentic_ai_tee.Agent.Controller.State.{Controller, LlmRequest}
use agentic_ai_tee.Agent.Controller.Loop.{run_task}
use agentic_ai_tee.Agent.Controller.Loop.History.{
  IsConversation, user_not_assistant, run_task_conversations,
}
use agentic_ai_tee.Agent.LlmClient.Convert.{
  ApiMessage, text_message, assistant_message, tool_message, user_parts, is_tool_result, api_calls,
  assistant_to_api, results_to_api, user_to_api, message_to_api, convert_messages_to_openai,
}

-- Every tool message answers the first call that waits for an answer, and the assistant speaks, and
-- the conversation ends, when no call waits.
abbrev pub IsAnswering : List Text → List ApiMessage → Type 0
IsAnswering pending [] = pending ≡ []
IsAnswering pending (text_message user t ∷ ms) = IsAnswering pending ms
IsAnswering pending (text_message assistant t ∷ ms) = (pending ≡ []) × IsAnswering [] ms
IsAnswering pending (assistant_message content tool_calls ∷ ms) =
    (pending ≡ []) × IsAnswering (map (λ c. c.id) tool_calls) ms
IsAnswering [] (tool_message id content ∷ ms) = ⊥
IsAnswering (waiting ∷ pending) (tool_message id content ∷ ms) =
    (waiting ≡ id) × IsAnswering pending ms
IsAnswering pending (user_parts ts ∷ ms) = IsAnswering pending ms

module _ (dumps : Fields → Text) where
  api_calls-ids : (bs : List ContentBlock) → map (λ c. c.id) (api_calls dumps bs) ≡ call_ids bs
  unfolding api_calls
  api_calls-ids [] = refl
  api_calls-ids (tool_use_block u ∷ bs) = ap (λ t. u.id ∷ t) (api_calls-ids bs)
  api_calls-ids (text_block t ∷ bs) = api_calls-ids bs
  api_calls-ids (thinking_block t s ∷ bs) = api_calls-ids bs
  api_calls-ids (tool_result_block r ∷ bs) = api_calls-ids bs

-- The results of a message, in front of messages that start with none waiting.
results_to_api-IsAnswering :
    (bs : List ContentBlock) (ms : List ApiMessage)
    → IsAnswering [] ms
    → IsAnswering (answer_ids bs) (results_to_api bs ++ ms)
unfolding results_to_api
results_to_api-IsAnswering [] ms h = h
results_to_api-IsAnswering (tool_result_block r ∷ bs) ms h =
    (refl, results_to_api-IsAnswering bs ms h)
results_to_api-IsAnswering (text_block t ∷ bs) ms h = results_to_api-IsAnswering bs ms h
results_to_api-IsAnswering (thinking_block t s ∷ bs) ms h = results_to_api-IsAnswering bs ms h
results_to_api-IsAnswering (tool_use_block u ∷ bs) ms h = results_to_api-IsAnswering bs ms h

no_results : (bs : List ContentBlock) → any is_tool_result bs ≡ false → answer_ids bs ≡ []
no_results [] h = refl
no_results (tool_result_block r ∷ bs) h = absurd (ground arith)
no_results (text_block t ∷ bs) h = no_results bs h
no_results (thinking_block t s ∷ bs) h = no_results bs h
no_results (tool_use_block u ∷ bs) h = no_results bs h

user_to_api-IsAnswering :
    (bs : List ContentBlock) (ms : List ApiMessage)
    → IsAnswering [] ms
    → IsAnswering (answer_ids bs) (user_to_api bs ++ ms)
unfolding user_to_api
user_to_api-IsAnswering bs ms h = elim (Bool-cases (any is_tool_result bs)) [
  | inl some_result ↦ rw some_result (results_to_api-IsAnswering bs ms h)
  | inr none_there ↦ rw (none_there, no_results bs none_there) h
]

module _ (dumps : Fields → Text) where
  message_to_api-IsAnswering :
      (role : Role) (content : Content) (ms : List ApiMessage)
      → (role ≡ user → calls content ≡ [])
      → (role ≡ assistant → answers content ≡ [])
      → IsAnswering (calls content) ms
      → IsAnswering (answers content) (message_to_api dumps role content ++ ms)
  unfolding message_to_api assistant_to_api
  message_to_api-IsAnswering user (plain t) ms no_calls no_answers h = h
  message_to_api-IsAnswering assistant (plain t) ms no_calls no_answers h = (refl, h)
  message_to_api-IsAnswering user (blocks bs) ms no_calls no_answers h =
      user_to_api-IsAnswering bs ms (subst (λ ids. IsAnswering ids ms) (no_calls refl) h)
  message_to_api-IsAnswering assistant (blocks bs) ms no_calls no_answers h =
      (no_answers refl, subst (λ ids. IsAnswering ids ms) (sym (api_calls-ids dumps bs)) h)

  convert-IsAnswering :
      (r : Role) (pending : List Text) (ms : List Message)
      → (r ≡ assistant → pending ≡ [])
      → Follows pending ms
      → All HasRole ms
      → Turns r ms
      → IsAnswering pending (convert_messages_to_openai dumps ms)
  unfolding convert_messages_to_openai
  convert-IsAnswering r pending [] idle f roles t = idle t
  convert-IsAnswering user pending (m ∷ ms) none f roles t =
      subst (λ ids. IsAnswering ids (convert_messages_to_openai dumps (m ∷ ms))) f.0
        (message_to_api-IsAnswering m.role m.content (convert_messages_to_openai dumps ms) roles.0.0
          roles.0.1
          (convert-IsAnswering assistant (calls m.content) ms (λ e. roles.0.0 t.0) f.1 roles.1 t.1))
  convert-IsAnswering assistant pending (m ∷ ms) none f roles t =
      subst (λ ids. IsAnswering ids (convert_messages_to_openai dumps (m ∷ ms))) f.0
        (message_to_api-IsAnswering m.role m.content (convert_messages_to_openai dumps ms) roles.0.0
          roles.0.1
          (convert-IsAnswering user (calls m.content) ms (λ e. absurd (user_not_assistant e)) f.1
            roles.1 t.1))

  -- What the converter makes of a well-formed conversation.
  pub convert_messages_to_openai-IsAnswering :
      (ms : List Message) → IsConversation ms → IsAnswering [] (convert_messages_to_openai dumps ms)
  convert_messages_to_openai-IsAnswering ms (f, roles, t) =
      convert-IsAnswering user [] ms (λ e. refl) f roles t

All-map :
    {A : Type 0} (P Q : A → Type 0) → ((a : A) → P a → Q a) → (xs : List A) → All P xs → All Q xs
All-map P Q f [] h = tt
All-map P Q f (x ∷ xs) h = (f x h.0, All-map P Q f xs h.1)

-- If `log` lists the requests that the client was sent, and the client's answers hold no tool results,
-- then in each request of a task, as the OpenAI-compatible interfaces receive its messages, every tool
-- message answers the first call that waits for an answer, and no call waits when the assistant speaks
-- or the messages end.
pub run_task_api_messages :
    (F : Format) (sha3 : Text → Text) {L W : Type 0} (C : Controller L W) (task : TaskRequest)
    (system_prompt : Text) (dumps : Fields → Text) (log : L → List LlmRequest)
    → ((q : LlmRequest) (l : L) → log (C.llm q l).2 ≡ log l ++ (q ∷ []))
    → ((q : LlmRequest) (l : L) (response : LlmResponse)
        → (C.llm q l).0 ≡ ok response
        → answer_ids response.content ≡ [])
    → (events : List StepEvent) (l : L) (w : W) → All (λ q. IsConversation q.messages) (log l)
    → All
        (λ q. IsAnswering [] (convert_messages_to_openai dumps q.messages))
        (log (run_task F sha3 C task system_prompt events l w).1.llm_state)
run_task_api_messages F sha3 C task system_prompt dumps log logs only_calls events l w h =
    All-map _ _ (λ q. convert_messages_to_openai-IsAnswering dumps q.messages) _
      (run_task_conversations F sha3 C task system_prompt log logs only_calls events l w h)
