-- ===== src/Agent/Controller/Tests.antt =====
-- A task run by a client that calls one tool and then answers, and the theorems for that run.
use mathlib.Core.Path.{subst}
use agentic_ai_tee.Base.{
  ℕ, ◌+◌, ◌≤◌, ◌<◌, ◌≡◌, ◌⊎◌, refl, true, false, none, List, [], ◌∷◌, ◌++◌, map, Text, codes,
  length, length-append, take, last_n, All, arith, end,
}
use agentic_ai_tee.Base.Result.{ok}
use agentic_ai_tee.Agent.Models.{
  ContentBlock, text_block, tool_use_block, tool_result_block, Message, user, assistant, plain,
  blocks, ToolCall, ToolOutput, LlmResponse, TaskRequest, response_cost,
}
use agentic_ai_tee.Base.Texts.{text_eq}
use agentic_ai_tee.Base.Dict
use agentic_ai_tee.Tools.Registry.{get_tool}
use agentic_ai_tee.Tools.Router.{dispatch, validated, execute, finish}
use agentic_ai_tee.Tools.Tests.{plain_format, both, call_echo, echoed}
use agentic_ai_tee.Agent.Controller.Context.{compact_history, min_recent_messages}
use agentic_ai_tee.Agent.Controller.Context.Laws.{
  Follows, HasRole, answer_ids, compact_history_keeps, compact_history-Follows,
}
use agentic_ai_tee.Agent.Controller.Retry.{
  Executor, attempt, dispatch_with_retry, retry, pause, gather, start, move, settle,
}
use agentic_ai_tee.Agent.Controller.Retry.Laws.{Tries, dispatch_with_retry-Tries}
use agentic_ai_tee.Agent.Controller.Retry.Gather.{gather_in_order}
use agentic_ai_tee.Agent.Controller.Gather.{run_jobs, run_schedule, move_at, settle_all}
use agentic_ai_tee.Agent.Controller.Gather.Laws.{All₂}
use agentic_ai_tee.Agent.Controller.State.{Llm, LlmRequest, text_chunk, Controller, total_cost}
use agentic_ai_tee.Agent.Controller.Loop.{run_task}
use agentic_ai_tee.Agent.Controller.Loop.Integrity.{IsAttested, run_task-IsAttested}
use agentic_ai_tee.Agent.Controller.Loop.Budget.{run_task_budget}
use agentic_ai_tee.Agent.Controller.Loop.Metered.{run_task_calls, run_task_charge}
use agentic_ai_tee.Agent.Controller.Loop.History.{IsConversation, run_task_conversations}

-- The client's state: its requests so far, and the cost of its answers.
pub record Ledger : Type 0 where
  pub requests : List LlmRequest
  pub spent : ℕ

abbrev reply : List LlmRequest → List ContentBlock
reply [] =
    text_block (codes "Echoing.")
    ∷ tool_use_block (record { id = codes "t1"; name = codes "echo"; input = end })
    ∷ []
reply (q ∷ qs) = text_block (codes "Done.") ∷ []

abbrev response : List ContentBlock → LlmResponse
response bs = record {
  content = bs;
  input_tokens = 100;
  output_tokens = 20;
  latency_ms = 7;
  stop_reason = codes "end_turn";
}

abbrev pub client : Llm Ledger
client q l = (
  ok (response (reply l.requests)),
  text_chunk (codes "...") ∷ [],
  record { requests = l.requests ++ (q ∷ []); spent = l.spent + 600 },
)

abbrev pub executor : Executor ℕ
executor = record { registry = both; router_timeout = 60_000; sleep = λ t w. (true, w) }

abbrev pub controller : Controller Ledger ℕ
controller = record {
  llm = client;
  executor = executor;
  schedule = λ n. [];
  default_timeout = 300_000;
  context_window = 200_000;
  enable_thinking = false;
  require_permission = false;
  streaming = true;
}

abbrev pub task : TaskRequest
task = record {
  description = codes "Echo.";
  task_id = codes "task-1";
  user_id = codes "u";
  budget_usd = 1000;
  max_steps = 3;
  timeout_ms = 0;
  tool_allowlist = none;
  domain_allowlist = none;
}

abbrev pub fresh : Ledger
fresh = record { requests = []; spent = 0 }

-- a stand-in for the digest
abbrev pub digest : Text → Text
digest t = codes "#" ++ t

run_task-IsAttested_example :
    IsAttested plain_format digest controller task
      (codes "Be brief.")
      (run_task plain_format digest controller task (codes "Be brief.") [] fresh 0).0
run_task-IsAttested_example =
    run_task-IsAttested plain_format digest controller task (codes "Be brief.") [] fresh 0

pub client_bounded :
    (q : LlmRequest) (l : Ledger) (r : LlmResponse) → (client q l).0 ≡ ok r → response_cost r ≤ 600
client_bounded q l r e = ground arith

run_task_budget_example :
    let result = (run_task plain_format digest controller task (codes "Be brief.") [] fresh 0).0 in
    (result.total_cost_usd < 1000 + 600) × (result.total_cost_usd ≡ total_cost result.steps)
run_task_budget_example =
    run_task_budget plain_format digest controller task (codes "Be brief.") 600 client_bounded []
      fresh 0

run_task_calls_example :
    length
      (run_task plain_format digest controller task
        (codes "Be brief.")
        []
        fresh
        0).1.llm_state.requests
    ≤ 0 + 3
run_task_calls_example =
    run_task_calls plain_format digest controller task (codes "Be brief.") (λ l. length l.requests)
      (λ q l. length-append l.requests (q ∷ [])) [] fresh 0

run_task_charge_example :
    let (result, r) = run_task plain_format digest controller task (codes "Be brief.") [] fresh 0 in
    (0 + result.total_cost_usd ≤ r.llm_state.spent)
    × (result.success ≡ true → 0 + result.total_cost_usd ≡ r.llm_state.spent)
run_task_charge_example =
    run_task_charge plain_format digest controller task (codes "Be brief.") (λ l. l.spent)
      (λ q l. refl) [] fresh 0

pub client_only_calls :
    (q : LlmRequest) (l : Ledger) (r : LlmResponse)
    → (client q l).0 ≡ ok r
    → answer_ids r.content ≡ []
client_only_calls q l r e =
    subst (λ a. answer_ids a.content ≡ []) {x = response (reply l.requests)} {y = r} (ground arith)
      (replied l.requests)
  where
    replied : (qs : List LlmRequest) → answer_ids (reply qs) ≡ []
    replied [] = refl
    replied (q ∷ qs) = refl

run_task_conversations_example :
    All
      (λ q. IsConversation q.messages)
      (run_task plain_format digest controller task
        (codes "Be brief.")
        []
        fresh
        0).1.llm_state.requests
run_task_conversations_example =
    run_task_conversations plain_format digest controller task (codes "Be brief.") (λ l. l.requests)
      (λ q l. refl) client_only_calls [] fresh 0 tt

-- A history of eight messages, three of whose calls are answered.
abbrev say : Text → Message
say t = record { role = user; content = plain t }

abbrev ask : Text → Message
ask i = record {
  role = assistant;
  content = blocks (tool_use_block (record { id = i; name = codes "echo"; input = end }) ∷ []);
}

abbrev answer : Text → Message
answer i = record {
  role = user;
  content =
      blocks (
        tool_result_block (record { tool_use_id = i; content = codes "hi"; is_error = false })
        ∷ []);
}

abbrev later : List Message
later =
    ask (codes "1")
    ∷ answer (codes "1")
    ∷ ask (codes "2")
    ∷ answer (codes "2")
    ∷ ask (codes "3")
    ∷ answer (codes "3")
    ∷ ask (codes "4")
    ∷ answer (codes "4")
    ∷ []

later-HasRole : (i : Text) → HasRole (ask i) × HasRole (answer i)
later-HasRole i = ((λ e. absurd (cc), λ e. refl), (λ e. refl, λ e. absurd (cc)))

compact_history_keeps_example :
    let compacted = compact_history plain_format (say (codes "Go.") ∷ later) 10 5 in
    (take 1 compacted ≡ say (codes "Go.") ∷ [])
    × (last_n min_recent_messages compacted
        ≡ last_n min_recent_messages (say (codes "Go.") ∷ later))
    × ((compacted ≡ say (codes "Go.") ∷ later)
        ⊎ ((8 ≤ length (say (codes "Go.") ∷ later)) × (length compacted ≡ 8)))
compact_history_keeps_example = compact_history_keeps plain_format (say (codes "Go.") ∷ later) 10 5

compact_history-Follows_example :
    Follows [] (compact_history plain_format (say (codes "Go.") ∷ later) 10 5)
compact_history-Follows_example =
    compact_history-Follows plain_format (say (codes "Go.")) later 10 5 assistant
      (refl, (refl, (refl, (refl, (refl, (refl, (refl, (refl, (refl, tt)))))))))
      (
        (λ e. refl, λ e. absurd (cc)),
        (
          (later-HasRole (codes "1")).0,
          (
            (later-HasRole (codes "1")).1,
            (
              (later-HasRole (codes "2")).0,
              (
                (later-HasRole (codes "2")).1,
                (
                  (later-HasRole (codes "3")).0,
                  (
                    (later-HasRole (codes "3")).1,
                    ((later-HasRole (codes "4")).0, ((later-HasRole (codes "4")).1, tt)),
                  ),
                ),
              ),
            ),
          ),
        ),
      )
      refl (refl, (refl, (refl, (refl, (refl, (refl, refl))))))

abbrev pub echoed_late : ToolOutput
echoed_late = record echoed { latency_ms = 5 }

-- The first attempt fails, the second does not.
echo_retried : dispatch_with_retry plain_format executor call_echo 0 ≡ (ok echoed_late, 2)
unfolding dispatch_with_retry retry attempt pause dispatch validated execute finish get_tool
    Dict.get text_eq
echo_retried = refl

dispatch_with_retry-Tries_example :
    (n : ℕ) × Tries plain_format executor call_echo 0 n 0 echoed_late 2
    × (n ≤ 3)
    × ((true ≡ true) ⊎ (n ≡ 3))
dispatch_with_retry-Tries_example =
    dispatch_with_retry-Tries plain_format executor call_echo 0 2 echoed_late echo_retried

-- Two calls, the second of which moves first.
two_gathered :
    gather plain_format executor (1 ∷ 1 ∷ []) (map start (call_echo ∷ call_echo ∷ [])) 0
    ≡ (ok (echoed_late ∷ echoed_late ∷ []), 3)
unfolding gather run_jobs run_schedule move_at move settle_all settle retry attempt pause dispatch
    validated execute finish get_tool Dict.get text_eq
two_gathered = refl

-- An output that some attempt of the call returned.
abbrev IsFrom : ToolCall → ToolOutput → Type 0
IsFrom call o = (w : ℕ) × (w' : ℕ) × (attempt plain_format executor call w ≡ (ok o, w'))

gather_in_order_example : All₂ IsFrom (call_echo ∷ call_echo ∷ []) (echoed_late ∷ echoed_late ∷ [])
gather_in_order_example =
    gather_in_order plain_format executor IsFrom (λ call w w' o e. (w, w', e)) (1 ∷ 1 ∷ [])
      (call_echo ∷ call_echo ∷ []) (echoed_late ∷ echoed_late ∷ []) 0 3 two_gathered
