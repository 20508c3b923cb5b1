-- ===== src/Agent/LlmClient/OpenRouter/Laws.antt =====
-- How long OpenRouterClient keeps asking.
use agentic_ai_tee.Base.{
  ℕ, zero, suc, ◌+◌, ◌*◌, ◌≤◌, ◌<◌, ◌≡◌, refl, Bool, true, false, not, Option, none, some, List, [],
  ◌∷◌, Value, Text, Fields, end, arith,
}
use agentic_ai_tee.Base.Result.{Result, ok, err}
use agentic_ai_tee.Base.Optional.{Every, holds}
use agentic_ai_tee.Agent.Models.{Exn, Stop, raised, LlmResponse}
use agentic_ai_tee.Agent.Controller.Context.Laws.{answer_ids}
use agentic_ai_tee.Agent.Controller.State.{LlmRequest}
use agentic_ai_tee.Agent.LlmClient.Chat.{chat_payload, chat_response}
use agentic_ai_tee.Agent.LlmClient.Chat.Laws.{CallsOnly, chat_response-CallsOnly}
use agentic_ai_tee.Agent.LlmClient.OpenRouter.{
  Reply, response, connection_error, Attempted, answered, wait, gives_up, Http, is_success,
  openrouter_attempt, Line, note_wait, openrouter_posts, read_reply, send_payload, openrouter_call,
}

-- A server that gives these replies, one after the other, and then none.
abbrev pub replay : Exn → Fields → List Reply → Reply × List Reply
replay closed payload [] = (connection_error closed, [])
replay closed payload (r ∷ rs) = (r, rs)

-- A broken connection, or a status that is no success.
abbrev pub is_failure : Reply → Bool
is_failure (response status retry_after body) = not (is_success status)
is_failure (connection_error e) = true

module _ (H : Http) {S : Type 0} (post : Fields → S → Reply × S) (posts : S → ℕ)
    (counts : (payload : Fields) (s : S) → posts (post payload s).1 ≡ suc (posts s)) where
  -- If `posts` counts the posts that a server has seen, then a call makes one post at least, and no
  -- more than one for each pass that is left.
  openrouter_posts-count :
      (payload : Fields) (left backoff : ℕ) (l : Line S)
      → let seen = posts (openrouter_posts H post payload left backoff l).1.server in
        (posts l.server < seen) × (seen ≤ posts l.server + suc left)
  unfolding openrouter_posts
  openrouter_posts-count payload zero backoff l = omega (arith, counts payload l.server)
  openrouter_posts-count payload (suc left) backoff l =
      settle (openrouter_attempt H false backoff (post payload l.server).0) refl (λ ms.
        openrouter_posts-count payload left (backoff * 2)
          (note_wait ms (record l { server = (post payload l.server).1 })))
    where
      settle :
          (a : Attempted)
          → openrouter_attempt H false backoff (post payload l.server).0 ≡ a
          → ((ms : ℕ)
              → let l1 = note_wait ms (record l { server = (post payload l.server).1 }) in
                let seen = posts (openrouter_posts H post payload left (backoff * 2) l1).1.server in
                (posts l1.server < seen) × (seen ≤ posts l1.server + suc left))
          → let seen = posts (openrouter_posts H post payload (suc left) backoff l).1.server in
            (posts l.server < seen) × (seen ≤ posts l.server + suc (suc left))
      settle (answered v) e later =
          rw (e, openrouter_posts) (omega (arith, counts payload l.server))
      settle (gives_up x) e later =
          rw (e, openrouter_posts) (omega (arith, counts payload l.server))
      settle (wait ms) e later =
          rw (e, openrouter_posts) (omega (arith, counts payload l.server, later ms))

module _ (dumps : Fields → Text) (loads : Text → Option Value) (fresh_id : ℕ → Text) (H : Http)
    (unreadable : Exn) (elapsed : ℕ) where
  read_reply-CallsOnly :
      (result : Result Exn Value) (r : LlmResponse)
      → read_reply dumps loads fresh_id H unreadable elapsed result ≡ ok r
      → answer_ids r.content ≡ []
  unfolding read_reply
  read_reply-CallsOnly (err e) r h = absurd (cc)
  read_reply-CallsOnly (ok v) r h =
      settle (chat_response loads fresh_id elapsed v)
        (chat_response-CallsOnly loads fresh_id elapsed v) h
    where
      settle :
          (o : Option LlmResponse)
          → Every (λ r. CallsOnly r.content) o
          → elim o as (λ o. Result Stop LlmResponse) [
            | none ↦ err (raised unreadable)
            | some r ↦ ok r
          ]
            ≡ ok r
          → answer_ids r.content ≡ []
      settle none every h = absurd (cc)
      settle (some r') (holds p) h = ground arith

  -- What the client answers holds no tool results.
  pub openrouter_call-CallsOnly :
      {S : Type 0} (post : Fields → S → Reply × S) (model : Text) (q : LlmRequest) (l : Line S)
      (r : LlmResponse)
      → (openrouter_call dumps loads fresh_id H unreadable elapsed post model q l).0 ≡ ok r
      → answer_ids r.content ≡ []
  unfolding openrouter_call send_payload
  openrouter_call-CallsOnly post model q l r h = sent (chat_payload dumps model end q) h
    where
      sent :
          (o : Option Fields)
          → (send_payload dumps loads fresh_id H unreadable elapsed post o l).0 ≡ ok r
          → answer_ids r.content ≡ []
      sent none h = absurd (cc)
      sent (some payload) h = read_reply-CallsOnly _ r h
