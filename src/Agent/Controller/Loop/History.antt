-- ===== src/Agent/Controller/Loop/History.antt =====
-- What the model is sent: the conversation of every request of a task is well formed.
use mathlib.Core.Path.{subst}
use mathlib.Core.List.{append_assoc}
use agentic_ai_tee.Base.{
  ℕ, ◌≡◌, ◌≢◌, refl, ap, sym, ◌∙◌, List, [], ◌∷◌, ◌++◌, map, length, Text, All, All-append, arith,
}
use agentic_ai_tee.Base.Result.{ok}
use agentic_ai_tee.Agent.Models.{
  ContentBlock, tool_use_block, text_block, thinking_block, tool_result_block, Message, Role, user,
  assistant, tool_uses, tool_use_blocks, ToolUse, ToolOutput, LlmResponse, StepEvent, TaskRequest,
}
use agentic_ai_tee.Tools.Router.{Format}
use agentic_ai_tee.Agent.Controller.Context.Laws.{
  call_ids, answer_ids, calls, answers, HasRole, Follows, Turns, other,
}
use agentic_ai_tee.Agent.Controller.State.{Controller, LlmRequest}
use agentic_ai_tee.Agent.Controller.Loop.{run_task, result_block, result_blocks}
use agentic_ai_tee.Agent.Controller.Loop.View.{View}
use agentic_ai_tee.Agent.Controller.Loop.Rule.{answered}
use agentic_ai_tee.Agent.Controller.Loop.Kept.{IsKept, run_task-Kept}
use agentic_ai_tee.Agent.Controller.Loop.Asked.{asked-Ends}

-- The roles alternate from the user's to the user's, only the assistant calls tools and only the
-- user's side answers, and every message answers exactly the calls of the message before it.
abbrev pub IsConversation : List Message → Type 0
IsConversation ms = Follows [] ms × All HasRole ms × Turns user ms

-- The two messages of a pass with tool uses.
abbrev IsExchange : Message → Message → Type 0
IsExchange a b =
    (a.role ≡ assistant)
    × (b.role ≡ user)
    × (answers a.content ≡ [])
    × (calls b.content ≡ [])
    × (answers b.content ≡ calls a.content)

pub user_not_assistant : user ≢ assistant
user_not_assistant e = cc

HasRole-exchange : (a b : Message) → IsExchange a b → All HasRole (a ∷ b ∷ [])
HasRole-exchange a b (ra, rb, aa, cb, ab) = (
  (λ e. absurd (user_not_assistant (sym e ∙ ra)), λ e. aa),
  ((λ e. cb, λ e. absurd (user_not_assistant (sym rb ∙ e))), tt),
)

Turns-exchange :
    (r : Role) (ms : List Message) (a b : Message)
    → IsExchange a b
    → Turns r ms
    → Turns r (ms ++ (a ∷ b ∷ []))
Turns-exchange user [] a b x t = absurd (user_not_assistant t)
Turns-exchange assistant [] a b x t = (x.0, (x.1, refl))
Turns-exchange r (m ∷ ms) a b x t = (t.0, Turns-exchange (other r) ms a b x t.1)

Follows-exchange :
    (r : Role) (pending : List Text) (ms : List Message) (a b : Message)
    → IsExchange a b
    → (r ≡ assistant → pending ≡ [])
    → All HasRole ms
    → Turns r ms
    → Follows pending ms
    → Follows pending (ms ++ (a ∷ b ∷ []))
Follows-exchange r pending [] a b (ra, rb, aa, cb, ab) none roles t f =
    (aa ∙ sym (none t), (ab, tt))
Follows-exchange user pending (m ∷ ms) a b x none roles t f = (
  f.0,
  Follows-exchange assistant (calls m.content) ms a b x (λ e. roles.0.0 t.0) roles.1 t.1 f.1,
)
Follows-exchange assistant pending (m ∷ ms) a b x none roles t f = (
  f.0,
  Follows-exchange user (calls m.content) ms a b x (λ e. absurd (user_not_assistant e)) roles.1 t.1
      f.1,
)

IsConversation-exchange :
    (ms : List Message) (a b : Message)
    → IsExchange a b
    → IsConversation ms
    → IsConversation ((ms ++ (a ∷ [])) ++ (b ∷ []))
IsConversation-exchange ms a b x (f, roles, t) =
    subst IsConversation (sym (append_assoc ms (a ∷ []) (b ∷ []))) (
      Follows-exchange user [] ms a b x (λ e. refl) roles t f,
      All-append HasRole ms (a ∷ b ∷ []) roles (HasRole-exchange a b x),
      Turns-exchange user ms a b x t,
    )

call_ids-tool_uses : (bs : List ContentBlock) → call_ids bs ≡ map (λ u. u.id) (tool_uses bs)
unfolding tool_uses
call_ids-tool_uses [] = refl
call_ids-tool_uses (tool_use_block u ∷ bs) = ap (λ t. u.id ∷ t) (call_ids-tool_uses bs)
call_ids-tool_uses (text_block t ∷ bs) = call_ids-tool_uses bs
call_ids-tool_uses (thinking_block t s ∷ bs) = call_ids-tool_uses bs
call_ids-tool_uses (tool_result_block r ∷ bs) = call_ids-tool_uses bs

-- The blocks that answer a step have the ids of its tool uses, in order, and call nothing.
answer_ids-result_blocks :
    (F : Format) (bs : List ToolUse) (os : List ToolOutput)
    → length os ≡ length bs
    → (answer_ids (result_blocks F bs os) ≡ map (λ u. u.id) bs)
      × (call_ids (result_blocks F bs os) ≡ [])
unfolding result_blocks result_block
answer_ids-result_blocks F [] os e = (refl, refl)
answer_ids-result_blocks F (b ∷ bs) [] e = absurd (omega arith)
answer_ids-result_blocks F (b ∷ bs) (o ∷ os) e =
    let (ids, none) = answer_ids-result_blocks F bs os (omega arith) in
    (ap (λ t. b.id ∷ t) ids, none)

module _ (F : Format) (sha3 : Text → Text) {L W : Type 0} (C : Controller L W) (task : TaskRequest)
    (system_prompt : Text) where
  answered-IsConversation :
      (n : ℕ) (response : LlmResponse) (v : View L) (os : List ToolOutput)
      → IsConversation v.messages
      → answer_ids response.content ≡ []
      → length os ≡ length (tool_use_blocks response)
      → IsConversation (answered F sha3 C task system_prompt n response os v).messages
  unfolding tool_use_blocks
  answered-IsConversation n response v os h only_calls e =
      let (ids, none) = answer_ids-result_blocks F (tool_uses response.content) os e in
      IsConversation-exchange v.messages _ _
        (refl, refl, only_calls, none, ids ∙ sym (call_ids-tool_uses response.content)) h

  module _ (log : L → List LlmRequest)
      (logs : (q : LlmRequest) (l : L) → log (C.llm q l).2 ≡ log l ++ (q ∷ []))
      (only_calls : (q : LlmRequest) (l : L) (response : LlmResponse)
        → (C.llm q l).0 ≡ ok response
        → answer_ids response.content ≡ []) where
    abbrev Logged : L → Type 0
    Logged l = All (λ q. IsConversation q.messages) (log l)

    asked-Logged :
        (q : LlmRequest) (l : L) → IsConversation q.messages → Logged l → Logged (C.llm q l).2
    asked-Logged q l h g =
        subst (All (λ q. IsConversation q.messages)) (sym (logs q l))
          (All-append _ (log l) (q ∷ []) g (h, tt))

    IsConversation-kept :
        (max_steps max_cost : ℕ)
        → IsKept F sha3 C task system_prompt max_steps max_cost
            (λ n v. IsConversation v.messages × Logged v.llm_state)
            (λ n response v.
              (IsConversation v.messages × Logged v.llm_state) × (answer_ids response.content ≡ []))
            (λ result v. Logged v.llm_state)
            (λ s v. Logged v.llm_state)
    IsConversation-kept max_steps max_cost = record {
      planned = λ n v early h left.
          asked-Ends F sha3 C task system_prompt _ _ n v
            (λ response e.
              ((h.0, asked-Logged _ v.llm_state h.0 h.1), only_calls _ v.llm_state response e))
            (λ s e. asked-Logged _ v.llm_state h.0 h.1);
      done = λ n response v k last. k.0.1;
      stopped = λ n response v w s k uses stops. k.0.1;
      ran =
          λ n response v os k uses e. (answered-IsConversation n response v os k.0.0 k.1 e, k.0.1);
      over = λ n v summary error_text h why. h.1;
    }

    -- If `log` lists the requests that the client was sent, and the client's answers hold no tool
    -- results, then a task only adds requests whose messages alternate from the user's to the user's,
    -- where only the assistant calls tools, only the user's side answers, and every message answers
    -- exactly the calls of the message before it, in order.
    pub run_task_conversations :
        (events : List StepEvent) (l : L) (w : W)
        → All (λ q. IsConversation q.messages) (log l)
        → All
            (λ q. IsConversation q.messages)
            (log (run_task F sha3 C task system_prompt events l w).1.llm_state)
    run_task_conversations events l w g =
        run_task-Kept F sha3 C task system_prompt _ _ _ _ (λ result v. Logged v.llm_state)
          (IsConversation-kept _ _) (λ result v h. h) (λ s v summary error_text h. h) events l w
          (((refl, tt), ((λ e. refl, λ e. refl), tt), (refl, refl)), g)
