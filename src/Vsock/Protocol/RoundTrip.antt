-- ===== src/Vsock/Protocol/RoundTrip.antt =====
-- What `write_frame` and `encode_frame` send is what `read_frame` and `decode_frame` deliver.
use mathlib.Core.List.{append-nil, append_assoc}
use agentic_ai_tee.Base.{
  ℕ, zero, suc, ◌+◌, ◌-◌, ◌≤◌, ◌<◌, ◌≡◌, refl, ap, ◌∙◌, true, some, List, [], ◌∷◌, ◌++◌, length,
  take, drop, slice, All, arith, ltb, length-append, length-drop, take-append, drop-append,
  Option-cases, Bool-cases, inl, inr, get_field, text_eq, is_json_fields, ltb→le, le→ltb,
}
use agentic_ai_tee.Base.Result.{Result, ok, err}
use agentic_ai_tee.Vsock.Protocol.Codec.{Bytes, JsonCodec, IsLawful}
use agentic_ai_tee.Vsock.Protocol.Header.{
  unpack_le-pack_le_size, length-pack_le, take-pack_le, drop-pack_le,
}
use agentic_ai_tee.Vsock.Protocol.{
  MessageFrame, to_dict, from_dict, pack_le, unpack_le, header_size, max_message_size, encode_frame,
  decode_frame, parse_payload, read_exactly, read_payload, lift, read_frame, write_frame, Reader,
  return, ◌>>=◌, SendError,
}

pub from_dict-to_dict : (m : MessageFrame) → from_dict (to_dict m) ≡ m
unfolding from_dict to_dict get_field text_eq
from_dict-to_dict m = refl

-- A frame that is encoded is its payload, of at most the size limit, behind the payload's length.
pub record IsFrame (J : JsonCodec) (m : MessageFrame) (bs : Bytes) : Type 0 where
  pub body : Bytes
  pub dumped : J.dumps (to_dict m) ≡ some body
  pub fits : length body ≤ max_message_size
  pub layout : bs ≡ pack_le (length body) ++ body

module _ (J : JsonCodec) where
  pub encode_frame-IsFrame :
      (m : MessageFrame) (bs : Bytes) → encode_frame J m ≡ ok bs → IsFrame J m bs
  unfolding encode_frame
  encode_frame-IsFrame m bs h = elim (Option-cases (J.dumps (to_dict m))) [
    | inl e ↦ absurd (ground arith)
    | inr (body, e) ↦ elim (Bool-cases (ltb max_message_size (length body))) [
      | inl big ↦ absurd (ground arith)
      | inr fits ↦ record { body = body; dumped = e; fits = ltb→le _ _ fits; layout = ground arith }
    ]
  ]

module _ (J : JsonCodec) (L : IsLawful J) where
  parse_payload-dumps :
      (m : MessageFrame) (body : Bytes)
      → is_json_fields (to_dict m) ≡ true
      → J.dumps (to_dict m) ≡ some body
      → parse_payload J body ≡ ok m
  unfolding parse_payload
  parse_payload-dumps m body json e =
      rw (L.loads-dumps (to_dict m) body json e, parse_payload) (ap ok (from_dict-to_dict m))

  body_pos :
      (m : MessageFrame) (body : Bytes)
      → is_json_fields (to_dict m) ≡ true
      → J.dumps (to_dict m) ≡ some body
      → 0 < length body
  body_pos m [] json e = absurd (cc (L.loads-dumps (to_dict m) [] json e, L.loads_empty))
  body_pos m (b ∷ bs) json e = omega arith

-- A complete frame of an admitted length goes to the JSON parser.
pub decode_frame-payload :
    (J : JsonCodec) (s : Bytes) (n : ℕ)
    → unpack_le (take header_size s) ≡ n
    → n ≤ max_message_size
    → header_size + n ≤ length s
    → decode_frame J s ≡ parse_payload J (slice header_size (header_size + n) s)
unfolding decode_frame
decode_frame-payload J s n e fits whole =
    rw (le→ltb (length s) header_size (omega arith), e, le→ltb _ _ fits, le→ltb _ _ whole)

pub read_exactly-whole :
    (n : ℕ) (s : Bytes) → n ≤ length s → read_exactly n s ≡ (ok (take n s), drop n s)
unfolding read_exactly
read_exactly-whole n s h = rw (le→ltb (length s) n h)

read_payload-whole :
    (J : JsonCodec) (n : ℕ) (s : Bytes)
    → n ≤ max_message_size
    → 0 < n
    → n ≤ length s
    → read_payload J n s ≡ lift (parse_payload J (take n s)) (drop n s)
unfolding read_payload
read_payload-whole J n s fits positive whole =
    rw (le→ltb max_message_size n fits) (ground (arith, read_exactly-whole n s whole))

pub read_frame-payload :
    (J : JsonCodec) (s : Bytes) (n : ℕ)
    → unpack_le (take header_size s) ≡ n
    → n ≤ max_message_size
    → 0 < n
    → header_size + n ≤ length s
    → read_frame J s
      ≡ (lift (parse_payload J (take n (drop header_size s)))) (drop n (drop header_size s))
unfolding read_frame
read_frame-payload J s n e fits positive whole = ground (
  arith,
  read_exactly-whole header_size s,
  read_payload-whole J n (drop header_size s),
  length-drop header_size s,
)

pub add_sub_header : (n : ℕ) → header_size + n - header_size ≡ n
add_sub_header n = omega arith

-- What is on the stream after a frame was written there.
module _ (J : JsonCodec) (body rest : Bytes) (fits : length body ≤ max_message_size) where
  sent_length : unpack_le (take header_size (pack_le (length body) ++ (body ++ rest))) ≡ length body
  sent_length = rw take-pack_le (unpack_le-pack_le_size (length body) fits)

  sent_whole : header_size + length body ≤ length (pack_le (length body) ++ (body ++ rest))
  sent_whole = omega (
    arith,
    length-append (pack_le (length body)) (body ++ rest),
    length-append body rest,
    length-pack_le (length body),
  )

  decode_frame-sent :
      decode_frame J (pack_le (length body) ++ (body ++ rest)) ≡ parse_payload J body
  decode_frame-sent =
      decode_frame-payload J _ (length body) sent_length fits sent_whole
      ∙ ap (parse_payload J) (
          cc (
            drop-pack_le (length body) (body ++ rest),
            take-append body rest,
            add_sub_header (length body),
          ))

  read_frame-sent :
      0 < length body
      → read_frame J (pack_le (length body) ++ (body ++ rest)) ≡ lift (parse_payload J body) rest
  read_frame-sent positive =
      read_frame-payload J _ (length body) sent_length fits positive sent_whole
      ∙ rw (drop-pack_le, take-append, drop-append)

module _ (J : JsonCodec) (L : IsLawful J) (m : MessageFrame) (bs rest : Bytes) where
  -- A message that JSON carries faithfully is decoded from its encoding as it was, whatever bytes
  -- follow the frame.
  pub decode_frame-encode_frame :
      is_json_fields (to_dict m) ≡ true
      → encode_frame J m ≡ ok bs
      → decode_frame J (bs ++ rest) ≡ ok m
  decode_frame-encode_frame json sent =
      let f : IsFrame J m bs = encode_frame-IsFrame J m bs sent in
      rw (f.layout, append_assoc)
        (decode_frame-sent J f.body rest f.fits ∙ parse_payload-dumps J L m f.body json f.dumped)

  -- Reading the stream on which the encoding stands delivers the message and leaves exactly what
  -- follows it.
  pub read_frame-encode_frame :
      is_json_fields (to_dict m) ≡ true
      → encode_frame J m ≡ ok bs
      → read_frame J (bs ++ rest) ≡ (ok m, rest)
  read_frame-encode_frame json sent =
      let f : IsFrame J m bs = encode_frame-IsFrame J m bs sent in
      rw (f.layout, append_assoc)
        (read_frame-sent J f.body rest f.fits (body_pos J L m f.body json f.dumped)
          ∙ rw (parse_payload-dumps J L m f.body json f.dumped))

-- A sequence of calls of `write_frame`, up to the first that raises.
unfoldable pub write_all :
    JsonCodec → Bytes → List MessageFrame → Result SendError (Unit {0}) × Bytes
write_all J writer [] = (ok tt, writer)
write_all J writer (m ∷ ms) =
    let (r, writer') = write_frame J writer m in
    elim r [ ok _ ↦ write_all J writer' ms | err e ↦ (err e, writer') ]

-- A sequence of calls of `read_frame`, up to the first that raises.
unfoldable pub read_all : JsonCodec → ℕ → Reader (List MessageFrame)
read_all J zero = return []
read_all J (suc n) = do m ← read_frame J; ms ← read_all J n; return (m ∷ ms)

abbrev pub AllJson : List MessageFrame → Type 0
AllJson = All (λ m. is_json_fields (to_dict m) ≡ true)

record IsSent (J : JsonCodec) (ms : List MessageFrame) (writer writer' : Bytes) : Type 0 where
  sent : Bytes
  appended : writer' ≡ writer ++ sent
  delivered : (rest : Bytes) → read_all J (length ms) (sent ++ rest) ≡ (ok ms, rest)

module _ (J : JsonCodec) (L : IsLawful J) where
  write_all-cons :
      (m : MessageFrame) (ms : List MessageFrame) (writer writer' : Bytes)
      → write_all J writer (m ∷ ms) ≡ (ok tt, writer')
      → (bs : Bytes) × (encode_frame J m ≡ ok bs)
        × (write_all J (writer ++ bs) ms ≡ (ok tt, writer'))
  unfolding write_all write_frame
  write_all-cons m ms writer writer' h = ground arith

  read_all-cons :
      (m : MessageFrame) (ms : List MessageFrame) (s t rest : Bytes)
      → read_frame J s ≡ (ok m, t)
      → read_all J (length ms) t ≡ (ok ms, rest)
      → read_all J (length (m ∷ ms)) s ≡ (ok (m ∷ ms), rest)
  unfolding read_all
  read_all-cons m ms s t rest h k = ground arith

  write_all-IsSent :
      (ms : List MessageFrame) (writer writer' : Bytes)
      → AllJson ms
      → write_all J writer ms ≡ (ok tt, writer')
      → IsSent J ms writer writer'
  unfolding write_all read_all
  write_all-IsSent [] writer writer' json h = record {
    sent = [];
    appended = cc (append-nil writer);
    delivered = λ rest. refl;
  }
  write_all-IsSent (m ∷ ms) writer writer' json h =
      let (bs, sent_m, sent_ms) = write_all-cons m ms writer writer' h in
      let r : IsSent J ms (writer ++ bs) writer' =
        write_all-IsSent ms (writer ++ bs) writer' json.1 sent_ms in
      record {
        sent = bs ++ r.sent;
        appended = r.appended ∙ append_assoc writer bs r.sent;
        delivered = λ rest.
            read_all-cons m ms _ (r.sent ++ rest) rest
              (rw append_assoc (read_frame-encode_frame J L m bs (r.sent ++ rest) json.0 sent_m))
              (r.delivered rest);
      }

  -- When a sequence of messages that JSON carries faithfully is written to an empty stream and no
  -- call raises, then reading as many frames delivers the same messages in the same order, and
  -- leaves exactly what was on the stream behind them.
  pub read_all-write_all :
      (ms : List MessageFrame) (s rest : Bytes)
      → AllJson ms
      → write_all J [] ms ≡ (ok tt, s)
      → read_all J (length ms) (s ++ rest) ≡ (ok ms, rest)
  read_all-write_all ms s rest json h =
      let r : IsSent J ms [] s = write_all-IsSent ms [] s json h in rw r.appended (r.delivered rest)
