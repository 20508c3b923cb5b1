-- ===== src/Vsock/Client.antt =====
-- enclave/vsock/client.py: a message is sent on a connection of its own, and its answer awaited there.
pub mod Laws
pub mod Tests
use agentic_ai_tee.Base.{
  ℕ, zero, suc, Bool, true, false, Option, none, some, List, [], ◌∷◌, length, if◌then◌else◌, Text,
  codes, text_eq, one_of, truthy, Value, str,
}
use agentic_ai_tee.Base.Result.{Result, ok, err}
use agentic_ai_tee.Vsock.Protocol.Codec.{Bytes, JsonCodec}
use agentic_ai_tee.Vsock.Protocol.{
  MessageFrame, SendError, ReadError, incomplete_read, read_frame, write_frame,
}

pub data ClientError : Type 0 where
  refused : ClientError
  not_sent : SendError → ClientError
  not_read : ReadError → ClientError
  timed_out : ClientError

-- The other end of a connection: the bytes that arrive for those that were sent, `none` where the
-- connection is refused, and whether it then stays open without sending more.
pub record Peer : Type 0 where
  pub answers : Bytes → Option Bytes
  pub stalls : Bool

-- `if not msg.request_id: msg.request_id = uuid…`
unfoldable pub with_id : Text → MessageFrame → MessageFrame
with_id fresh m = if truthy m.request_id then m else (record m { request_id = str fresh })

abbrev pub has_type : List Text → Value → Bool
has_type types (str t) = one_of t types
has_type types _ = false

-- What a wait for a frame raises: the stream of a peer that stalls has no end, so the wait times out.
unfoldable pub read_failure : Bool → ReadError → ClientError
read_failure true incomplete_read = timed_out
read_failure stalls e = not_read e

-- One pass of the loop of `send`, on what was read and what is left.
unfoldable pub take_response :
    Bool
    → (Bytes → Option (Result ClientError MessageFrame))
    → Result ReadError MessageFrame × Bytes
    → Option (Result ClientError MessageFrame)
take_response stalls wait (err e, s) = some (err (read_failure stalls e))
take_response stalls wait (ok m, s) =
    if has_type (codes "step_event" ∷ []) m.msg_type then wait s else some (ok m)

-- The same of `send_stream`, with the frames that it yields.
unfoldable pub take_frame :
    Bool
    → (Bytes → Option (List MessageFrame × Result ClientError (Unit {0})))
    → Result ReadError MessageFrame × Bytes
    → Option (List MessageFrame × Result ClientError (Unit {0}))
take_frame stalls wait (err e, s) = some ([], err (read_failure stalls e))
take_frame stalls wait (ok m, s) =
    if has_type (codes "task_result" ∷ codes "task_error" ∷ codes "error" ∷ []) m.msg_type
    then some (m ∷ [], ok tt)
    else elim (wait s) [ none ↦ none | some (ms, end) ↦ some (m ∷ ms, end) ]

module _ (J : JsonCodec) where
  -- `while True` on fuel; `none` means that the fuel ran out.
  unfoldable pub response_loop : Bool → ℕ → Bytes → Option (Result ClientError MessageFrame)
  response_loop stalls zero s = none
  response_loop stalls (suc fuel) s =
      take_response stalls (response_loop stalls fuel) (read_frame J s)

  unfoldable pub stream_loop :
      Bool → ℕ → Bytes → Option (List MessageFrame × Result ClientError (Unit {0}))
  stream_loop stalls zero s = none
  stream_loop stalls (suc fuel) s = take_frame stalls (stream_loop stalls fuel) (read_frame J s)

  -- What arrives behind a message that was written.
  unfoldable pub exchange :
      {A : Type 0}
      → Peer
      → (ClientError → A)
      → (ℕ → Bytes → Option A)
      → Result SendError (Unit {0}) × Bytes
      → Option A
  exchange P failed loop (err e, sent) = some (failed (not_sent e))
  exchange P failed loop (ok u, sent) = elim (P.answers sent) [
    | none ↦ some (failed refused)
    | some arrived ↦ loop (suc (length arrived)) arrived
  ]

  -- The fuel is one more than the bytes that arrive, and every frame takes some of them.
  unfoldable pub send : Peer → Text → MessageFrame → Option (Result ClientError MessageFrame)
  send P fresh msg =
      exchange P (λ e. err e) (response_loop P.stalls) (write_frame J [] (with_id fresh msg))

  unfoldable pub send_stream :
      Peer → Text → MessageFrame → Option (List MessageFrame × Result ClientError (Unit {0}))
  send_stream P fresh msg =
      exchange P (λ e. ([], err e)) (stream_loop P.stalls) (write_frame J [] (with_id fresh msg))

  unfoldable pub send_no_response :
      Peer → Text → MessageFrame → Option (Result ClientError (Unit {0}))
  send_no_response P fresh msg =
      exchange P (λ e. err e) (λ fuel arrived. some (ok tt)) (write_frame J [] (with_id fresh msg))
