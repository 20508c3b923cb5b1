-- ===== src/Vsock/Protocol.antt =====
-- enclave/vsock/protocol.py: frames of a little-endian length and a JSON payload.
-- The `json` module is a parameter; bytes are numbers below 256, and a stream reader is the list
-- of the bytes that still arrive before the peer closes.
pub mod Codec
pub mod Header
pub mod RoundTrip
pub mod Limits
pub mod Tests
use agentic_ai_tee.Base.{
  ℕ, ◌+◌, ◌-◌, ◌*◌, ◌/◌, ◌%◌, ◌^◌, Bool, true, false, Option, none, some, List, [], ◌∷◌, ◌++◌, ltb,
  ◌==◌, if◌then◌else◌, length, take, drop, slice, Value, dict, str, Fields, end, field,
  get_field_or, codes,
}
use agentic_ai_tee.Base.Result.{Result, ok, err}
use Codec.{Bytes, JsonCodec}

abbrev pub max_message_size : ℕ
max_message_size = 16 * 1024 * 1024

abbrev pub header_size : ℕ
header_size = 4

-- `from_dict` checks no types, so the fields hold any value.
pub record MessageFrame : Type 0 where
  pub msg_type : Value
  pub payload : Value
  pub request_id : Value

unfoldable pub to_dict : MessageFrame → Fields
to_dict m =
    field (codes "msg_type") m.msg_type
      (field (codes "payload") m.payload (field (codes "request_id") m.request_id end))

unfoldable pub from_dict : Fields → MessageFrame
from_dict d = record {
  msg_type = get_field_or d (codes "msg_type") (str []);
  payload = get_field_or d (codes "payload") (dict end);
  request_id = get_field_or d (codes "request_id") (str []);
}

-- `FramingError`, one constructor for each message with what it shows.
pub data FramingError : Type 0 where
  message_too_large : ℕ → FramingError
  header_too_short : ℕ → FramingError
  declared_too_large : ℕ → FramingError
  incomplete_message : ℕ → ℕ → FramingError
  invalid_json : FramingError
  not_an_object : FramingError
  empty_payload : FramingError

pub data SendError : Type 0 where
  framing : FramingError → SendError
  -- `json.dumps` raised
  unserializable : SendError

pub data ReadError : Type 0 where
  framing : FramingError → ReadError
  -- `asyncio.IncompleteReadError`
  incomplete_read : ReadError

-- `struct.pack("<I", n)`
unfoldable pub pack_le : ℕ → Bytes
pack_le n = n % 256 ∷ n / 256 % 256 ∷ n / 65536 % 256 ∷ n / 16777216 % 256 ∷ []

-- `struct.unpack("<I", b)[0]`, on the four bytes that both callers slice
unfoldable pub unpack_le : Bytes → ℕ
unpack_le (a ∷ b ∷ c ∷ d ∷ []) = a + 256 * b + 65536 * c + 16777216 * d
unpack_le _ = 0

-- A coroutine over the stream reader, which may raise.
abbrev pub Reader : Type 0 → Type 0
Reader A = Bytes → Result ReadError A × Bytes

infixl 5 ◌>>=◌
abbrev pub ◌>>=◌ : {A B : Type 0} → Reader A → (A → Reader B) → Reader B
◌>>=◌ m f s = let (r, s') = m s in elim r [ ok a ↦ f a s' | err e ↦ (err e, s') ]

abbrev pub return : {A : Type 0} → A → Reader A
return a s = (ok a, s)

abbrev pub fail : {A : Type 0} → FramingError → Reader A
fail e s = (err (ReadError.framing e), s)

abbrev pub lift : {A : Type 0} → Result FramingError A → Reader A
lift (ok a) s = (ok a, s)
lift (err e) s = (err (ReadError.framing e), s)

-- `StreamReader.readexactly(n)`: at the end of the stream what was there is gone.
unfoldable pub read_exactly : ℕ → Reader Bytes
read_exactly n s = if ltb (length s) n then (err incomplete_read, []) else (ok (take n s), drop n s)

module _ (J : JsonCodec) where
  unfoldable pub encode_frame : MessageFrame → Result SendError Bytes
  encode_frame msg = elim (J.dumps (to_dict msg)) [
    | none ↦ err unserializable
    | some payload_bytes ↦
        if ltb max_message_size (length payload_bytes)
        then err (SendError.framing (message_too_large (length payload_bytes)))
        else ok (pack_le (length payload_bytes) ++ payload_bytes)
  ]

  -- the end of `decode_frame` and of `read_frame`
  unfoldable pub parse_payload : Bytes → Result FramingError MessageFrame
  parse_payload payload_bytes = elim (J.loads payload_bytes) [
    | none ↦ err invalid_json
    | some (dict payload_dict) ↦ ok (from_dict payload_dict)
    | some _ ↦ err not_an_object
  ]

  unfoldable pub decode_frame : Bytes → Result FramingError MessageFrame
  decode_frame data_bytes =
      if ltb (length data_bytes) header_size
      then err (header_too_short (length data_bytes))
      else let payload_length = unpack_le (take header_size data_bytes) in
        if ltb max_message_size payload_length
        then err (declared_too_large payload_length)
        else if ltb (length data_bytes) (header_size + payload_length)
        then err (incomplete_message (header_size + payload_length) (length data_bytes))
        else parse_payload (slice header_size (header_size + payload_length) data_bytes)

  -- `read_frame` after its header, on the declared length
  unfoldable pub read_payload : ℕ → Reader MessageFrame
  read_payload payload_length =
      if ltb max_message_size payload_length
      then fail (declared_too_large payload_length)
      else if payload_length == 0
      then fail empty_payload
      else (do payload_bytes ← read_exactly payload_length; lift (parse_payload payload_bytes))

  unfoldable pub read_frame : Reader MessageFrame
  read_frame = do header ← read_exactly header_size; read_payload (unpack_le header)

  -- The writer is what was written to it.
  unfoldable pub write_frame : Bytes → MessageFrame → Result SendError (Unit {0}) × Bytes
  write_frame writer msg = elim (encode_frame msg) [
    | err e ↦ (err e, writer)
    | ok frame_bytes ↦ (ok tt, writer ++ frame_bytes)
  ]
