-- ===== src/Vsock/Server.antt =====
-- enclave/vsock/server.py: one connection of VsockServer. A wait of 30 seconds for a frame sees what
-- arrived until it ends; a script lists the waits.
pub mod Laws
pub mod Tests
use agentic_ai_tee.Base.{
  ℕ, Bool, true, false, Option, none, some, List, [], ◌∷◌, ◌++◌, if◌then◌else◌, ◌==◌, ltb, length,
  take, drop, Text, codes, Value, str, list, dict, Fields, end, field,
}
use agentic_ai_tee.Base.Result.{Result, ok, err}
use agentic_ai_tee.Base.Dict
use agentic_ai_tee.Base.Dict.{Dict}
use agentic_ai_tee.Vsock.Protocol.Codec.{Bytes, JsonCodec}
use agentic_ai_tee.Vsock.Protocol.{
  MessageFrame, FramingError, SendError, declared_too_large, empty_payload, max_message_size,
  header_size, unpack_le, parse_payload, write_frame,
}

-- What a wait sees: the shutdown event in front of it, the bytes that arrive during it, and whether
-- the client closed its side.
pub record Wait : Type 0 where
  pub shutdown : Bool
  pub arrived : Bytes
  pub closed : Bool

pub data Attempt : Type 0 where
  got : MessageFrame → Attempt
  timed_out : Attempt
  incomplete : Attempt
  malformed : FramingError → Attempt

-- A handler of a message, over the state of the service, which may write to the stream itself.
abbrev pub Handler : Type 0 → Type 0
Handler H = MessageFrame → Bytes → H → Result Text (Option MessageFrame) × Bytes × H

-- How the loop ends: by the shutdown event, with a client that left, or with an exception that
-- closes the connection; or the script of waits is at its end.
pub data Closing : Type 0 where
  shut_down : Closing
  client_left : Closing
  bad_frame : FramingError → Closing
  unhashable_type : Closing
  unsendable : SendError → Closing
  still_open : Closing

pub record Connection (H : Type 0) : Type 0 where
  pub buffer : Bytes
  pub written : Bytes
  pub service : H

module _ (J : JsonCodec) where
  -- `await asyncio.wait_for(read_frame(reader), timeout=30.0)` on the bytes that are there when it
  -- ends. Where it ends early, the header that was read is gone.
  abbrev pub parsed : Result FramingError MessageFrame → Attempt
  parsed (ok msg) = got msg
  parsed (err e) = malformed e

  unfoldable pub read_body : Bool → ℕ → Bytes → Attempt × Bytes
  read_body closed payload_length s =
      if ltb max_message_size payload_length
      then (malformed (declared_too_large payload_length), s)
      else if payload_length == 0
      then (malformed empty_payload, s)
      else if ltb (length s) payload_length
      then (if closed then (incomplete, []) else (timed_out, s))
      else (parsed (parse_payload J (take payload_length s)), drop payload_length s)

  unfoldable pub read_within : Bool → Bytes → Attempt × Bytes
  read_within closed s =
      if ltb (length s) header_size
      then (if closed then (incomplete, []) else (timed_out, s))
      else read_body closed (unpack_le (take header_size s)) (drop header_size s)

abbrev pub error_frame : Text → Value → MessageFrame
error_frame message request_id = record {
  msg_type = str (codes "error");
  payload = dict (field (codes "error") (str message) end);
  request_id = request_id;
}

-- `show` is Python's `str` of a value.
module _ (J : JsonCodec) (show : Value → Text) {H : Type 0} (handlers : Dict (Handler H)) where
  -- `self._handlers.get(msg.msg_type)`: a list or a dict is no key and raises.
  unfoldable pub find_handler : Value → Option (Option (Handler H))
  find_handler (str t) = some (Dict.get handlers t)
  find_handler (list vs) = none
  find_handler (dict d) = none
  find_handler _ = some none

  -- The response to a message, by its handler.
  unfoldable pub respond :
      Option (Handler H) → MessageFrame → Bytes → H → Option MessageFrame × Bytes × H
  respond none msg written h = (
    some (error_frame (codes "Unknown message type: " ++ show msg.msg_type) msg.request_id),
    written,
    h,
  )
  respond (some handler) msg written h =
      let (result, written', h') = handler msg written h in
      (
        elim result [
          | ok response ↦ response
          | err message ↦ some (error_frame (codes "Handler error: " ++ message) msg.request_id)
        ],
        written',
        h',
      )

  -- `if response is not None: await write_frame(writer, response)`
  unfoldable pub send_response : Option MessageFrame → Bytes → Result SendError (Unit {0}) × Bytes
  send_response none written = (ok tt, written)
  send_response (some response) written = write_frame J written response

  -- The body of the loop behind a message; the error ends the loop.
  unfoldable pub answer : MessageFrame → Bytes → H → Result Closing (Unit {0}) × Bytes × H
  answer msg written h = elim (find_handler msg.msg_type) [
    | none ↦ (err unhashable_type, written, h)
    | some handler ↦
        let (response, written', h') = respond handler msg written h in
        let (sent, written'') = send_response response written' in
        (elim sent [ ok u ↦ ok tt | err e ↦ err (unsendable e) ], written'', h')
  ]

  -- One pass of the loop: `none` goes on.
  unfoldable pub after_attempt : Attempt → Bytes → Connection H → Option Closing × Connection H
  after_attempt timed_out s c = (none, record c { buffer = s })
  after_attempt incomplete s c = (some client_left, record c { buffer = s })
  after_attempt (malformed e) s c = (some (bad_frame e), record c { buffer = s })
  after_attempt (got msg) s c =
      let (done, written, h) = answer msg c.written c.service in
      (
        elim done [ ok u ↦ none | err closing ↦ some closing ],
        record { buffer = s; written = written; service = h },
      )

  unfoldable pub serve_once : Wait → Connection H → Option Closing × Connection H
  serve_once w c =
      if w.shutdown
      then (some shut_down, c)
      else let (attempt, s) = read_within J w.closed (c.buffer ++ w.arrived) in
        after_attempt attempt s c

  -- `_handle_connection`
  unfoldable pub handle_connection : List Wait → Connection H → Closing × Connection H
  handle_connection [] c = (still_open, c)
  handle_connection (w ∷ ws) c =
      let (ended, c') = serve_once w c in
      elim ended [ none ↦ handle_connection ws c' | some closing ↦ (closing, c') ]
