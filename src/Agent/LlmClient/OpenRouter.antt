-- ===== src/Agent/LlmClient/OpenRouter.antt =====
-- OpenRouterClient of enclave/agent/llm_client.py: the posts of a call, with their retries. The server
-- is a function of its state; waits are in milliseconds. `seconds_of` reads a Retry-After of digits and
-- one point, and is none for every other text.
pub mod Laws
use agentic_ai_tee.Base.Optional.{◌>>=◌}
use agentic_ai_tee.Base.{
  ℕ, zero, suc, ◌*◌, Bool, true, false, ◌&&◌, Option, none, some, List, [], ◌∷◌, ◌++◌,
  if◌then◌else◌, leb, ltb, ◌==◌, Text, codes, Value, dict, Fields, end,
}
use agentic_ai_tee.Base.Result.{Result, ok, err}
use agentic_ai_tee.Agent.Models.{LlmResponse, Exn, Stop, raised}
use agentic_ai_tee.Agent.Controller.State.{LlmRequest, Chunk, Llm}
use agentic_ai_tee.Agent.LlmClient.Chat.{chat_payload, chat_response}

-- What a post gives: a status, the Retry-After header, and the body as JSON, if it is some; or an
-- `httpx.HTTPError` of the connection.
pub data Reply : Type 0 where
  response : ℕ → Option Text → Option Value → Reply
  connection_error : Exn → Reply

-- What a post leads to.
pub data Attempted : Type 0 where
  answered : Value → Attempted
  wait : ℕ → Attempted
  gives_up : Exn → Attempted

-- What the library raises: for a status that is no success, and for a body that is no JSON.
pub record Http : Type 0 where
  pub status_error : ℕ → Exn
  pub not_json : Exn
  pub seconds_of : Text → Option ℕ

abbrev pub is_success : ℕ → Bool
is_success status = leb 200 status && ltb status 300

-- `resp.json()`
unfoldable pub json_of : Http → Option Value → Attempted
json_of H (some v) = answered v
json_of H none = gives_up H.not_json

-- The wait that the server asks for, or else the backoff.
unfoldable pub wait_time : Http → Option Text → ℕ → ℕ
wait_time H none backoff = backoff
wait_time H (some t) backoff = elim (H.seconds_of t) [ none ↦ backoff | some ms ↦ ms ]

-- One pass of the loop, the last or an earlier one. A status that is an error raises inside the `try`,
-- and its `except` retries that as it does a broken connection.
unfoldable pub openrouter_attempt : Http → Bool → ℕ → Reply → Attempted
openrouter_attempt H last backoff (response status retry_after body) =
    if status == 429
    then (if last then gives_up (H.status_error status) else wait (wait_time H retry_after backoff))
    else if leb 500 status
    then (if last then gives_up (H.status_error status) else wait backoff)
    else if is_success status
    then json_of H body
    else if last
    then gives_up (H.status_error status)
    else wait backoff
openrouter_attempt H last backoff (connection_error e) = if last then gives_up e else wait backoff

-- The state of the server, and the waits so far.
pub record Line (S : Type 0) : Type 0 where
  pub server : S
  pub waits : List ℕ

abbrev pub openrouter_max_retries : ℕ
openrouter_max_retries = 6

abbrev pub initial_backoff : ℕ
initial_backoff = 2000

abbrev pub note_wait : {S : Type 0} → ℕ → Line S → Line S
note_wait ms l = record l { waits = l.waits ++ (ms ∷ []) }

module _ (H : Http) {S : Type 0} (post : Fields → S → Reply × S) where
  -- `for attempt in range(max_retries + 1)`, with so many passes left behind this one: the last one never
  -- waits, and `data` would still be {} behind it.
  unfoldable pub openrouter_posts : Fields → ℕ → ℕ → Line S → Result Exn Value × Line S
  openrouter_posts payload zero backoff l =
      let (reply, s) = post payload l.server in
      (
        elim (openrouter_attempt H true backoff reply) [
          | answered v ↦ ok v
          | gives_up e ↦ err e
          | wait ms ↦ ok (dict end)
        ],
        record l { server = s },
      )
  openrouter_posts payload (suc left) backoff l =
      let (reply, s) = post payload l.server in
      elim (openrouter_attempt H false backoff reply) [
        | answered v ↦ (ok v, record l { server = s })
        | gives_up e ↦ (err e, record l { server = s })
        | wait ms ↦
            openrouter_posts payload left (backoff * 2) (note_wait ms (record l { server = s }))
      ]

-- A call: `unreadable` stands for what is raised on a reply or a tool of another form.
module _ (dumps : Fields → Text) (loads : Text → Option Value) (fresh_id : ℕ → Text) (H : Http)
    (unreadable : Exn) (elapsed : ℕ) where
  unfoldable pub read_reply : Result Exn Value → Result Stop LlmResponse
  read_reply (err e) = err (raised e)
  read_reply (ok v) = elim (chat_response loads fresh_id elapsed v) [
    | none ↦ err (raised unreadable)
    | some r ↦ ok r
  ]

  -- The posts of a payload, if there is one.
  unfoldable pub send_payload :
      {S : Type 0}
      → (Fields → S → Reply × S)
      → Option Fields
      → Line S
      → Result Stop LlmResponse × List Chunk × Line S
  send_payload post none l = (err (raised unreadable), [], l)
  send_payload post (some payload) l =
      let (result, l') = openrouter_posts H post payload openrouter_max_retries initial_backoff l in
      (read_reply result, [], l')

  unfoldable pub openrouter_call : {S : Type 0} → (Fields → S → Reply × S) → Text → Llm (Line S)
  openrouter_call post model q l = send_payload post (chat_payload dumps model end q) l
