-- ===== src/Vsock/Protocol/Tests.antt =====
-- Runs of the protocol with a small codec, and the theorems at concrete frames.
use agentic_ai_tee.Base.{
  ◌≡◌, ◌≢◌, ◌↔◌, refl, Bool, true, ◌&&◌, Option, none, some, [], ◌∷◌, ◌++◌, length, take, drop,
  arith, take-append, drop-append, text_eq, text_eq_iff, if◌then◌else◌, Value, str, dict, Fields,
  end, field, Text, codes, is_json_fields, get_field,
}
use agentic_ai_tee.Base.Result.{ok, err}
use agentic_ai_tee.Vsock.Protocol.Codec.{Bytes, JsonCodec, IsLawful}
use agentic_ai_tee.Vsock.Protocol.{
  MessageFrame, to_dict, pack_le, unpack_le, encode_frame, decode_frame, read_exactly, read_payload,
  read_frame, write_frame, ReadError, incomplete_read, declared_too_large, empty_payload,
}
use agentic_ai_tee.Vsock.Protocol.RoundTrip.{
  read_frame-encode_frame, write_all, read_all, read_all-write_all,
}
use agentic_ai_tee.Vsock.Protocol.Limits.{read_frame_iff-decode_frame}

-- A codec for messages with an empty payload: the length of the type, the type, the request id.
abbrev frame_keys : Text → Text → Text → Bool
frame_keys k l j =
    text_eq k (codes "msg_type") && (text_eq l (codes "payload") && text_eq j (codes "request_id"))

abbrev small_dumps : Fields → Option Bytes
small_dumps (field k (str a) (field l (dict end) (field j (str b) end))) =
    if frame_keys k l j then some (length a ∷ a ++ b) else none
small_dumps _ = none

abbrev small_fields : Text → Text → Fields
small_fields a b =
    field (codes "msg_type") (str a)
      (field (codes "payload") (dict end) (field (codes "request_id") (str b) end))

abbrev small_loads : Bytes → Option Value
small_loads [] = none
small_loads (n ∷ bs) = some (dict (small_fields (take n bs) (drop n bs)))

abbrev pub small : JsonCodec
small = record { dumps = small_dumps; loads = small_loads }

small_fields-back : (a b : Text) → small_loads (length a ∷ a ++ b) ≡ some (dict (small_fields a b))
small_fields-back a b = cc (take-append a b, drop-append a b)

small_loads-dumps :
    (d : Fields) (bs : Bytes)
    → is_json_fields d ≡ true
    → small_dumps d ≡ some bs
    → small_loads bs ≡ some (dict d)
small_loads-dumps (field k (str a) (field l (dict end) (field j (str b) end))) bs json h = ground (
  arith,
  text_eq_iff k (codes "msg_type"),
  text_eq_iff l (codes "payload"),
  text_eq_iff j (codes "request_id"),
  small_fields-back a b,
)
small_loads-dumps _ bs json h = cc

pub small-IsLawful : IsLawful small
small-IsLawful = record { loads-dumps = small_loads-dumps; loads_empty = refl }

abbrev pub echo : MessageFrame
echo = record { msg_type = str (codes "echo"); payload = dict end; request_id = str (codes "r1") }

abbrev pub echo_bytes : Bytes
echo_bytes = 7 ∷ 0 ∷ 0 ∷ 0 ∷ 4 ∷ codes "echor1"

pub echo-json : is_json_fields (to_dict echo) ≡ true
unfolding to_dict is_json_fields get_field text_eq
echo-json = refl

pub encode-echo : encode_frame small echo ≡ ok echo_bytes
unfolding encode_frame to_dict pack_le text_eq
encode-echo = refl

write_two : write_all small [] (echo ∷ echo ∷ []) ≡ (ok tt, echo_bytes ++ echo_bytes)
unfolding write_all write_frame encode_frame to_dict pack_le text_eq
write_two = refl

read_all-write_all_example :
    read_all small 2 ((echo_bytes ++ echo_bytes) ++ (9 ∷ [])) ≡ (ok (echo ∷ echo ∷ []), 9 ∷ [])
read_all-write_all_example =
    read_all-write_all small small-IsLawful (echo ∷ echo ∷ []) (echo_bytes ++ echo_bytes) (9 ∷ [])
      (echo-json, (echo-json, tt)) write_two

read_two : (read_frame small (echo_bytes ++ (9 ∷ []))).0 ≢ err incomplete_read
read_two =
    rw (read_frame-encode_frame small small-IsLawful echo echo_bytes (9 ∷ []) echo-json encode-echo)
      (λ e. cc)

read_frame_iff-decode_frame_example :
    ((read_frame small echo_bytes).0 ≡ ok echo) ↔ (decode_frame small echo_bytes ≡ ok echo)
read_frame_iff-decode_frame_example =
    read_frame_iff-decode_frame small small-IsLawful echo_bytes echo

-- A truncated frame, an empty payload, and a length past the limit.
abbrev huge : Bytes
huge = 1 ∷ 0 ∷ 0 ∷ 1 ∷ 5 ∷ []

read_frame-errors :
    (read_frame small (7 ∷ 0 ∷ 0 ∷ 0 ∷ 4 ∷ []) ≡ (err incomplete_read, []))
    × (read_frame small (0 ∷ 0 ∷ 0 ∷ 0 ∷ 4 ∷ []) ≡ (err (ReadError.framing empty_payload), 4 ∷ []))
    × (read_frame small huge ≡ (err (ReadError.framing (declared_too_large 16777217)), 5 ∷ []))
unfolding read_frame read_payload read_exactly unpack_le
read_frame-errors = (refl, refl, refl)
