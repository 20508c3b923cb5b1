-- ===== src/Vsock/Protocol/Limits.antt =====
-- What the size limit bounds, and how the two decoders agree.
use agentic_ai_tee.Base.{
  ℕ, zero, suc, ◌+◌, ◌≤◌, ◌<◌, ◌≡◌, ◌≢◌, ◌↔◌, refl, ◌∙◌, [], length, take, drop, arith, ltb,
  length-append, length-drop, ◌⊎◌, Bool-cases, inl, inr, ltb→le, ltb→lt, lt→ltb,
}
use agentic_ai_tee.Base.Result.{ok, err}
use agentic_ai_tee.Vsock.Protocol.Codec.{Bytes, JsonCodec, IsLawful}
use agentic_ai_tee.Vsock.Protocol.Header.{length-pack_le}
use agentic_ai_tee.Vsock.Protocol.RoundTrip.{
  IsFrame, encode_frame-IsFrame, read_exactly-whole, read_frame-payload, decode_frame-payload,
  add_sub_header,
}
use agentic_ai_tee.Vsock.Protocol.{
  MessageFrame, unpack_le, header_size, max_message_size, encode_frame, decode_frame, parse_payload,
  invalid_json, read_exactly, read_payload, read_frame, ReadError, incomplete_read,
  declared_too_large,
}

-- An encoded frame is never longer than the header and the size limit together.
pub encode_frame_bound :
    (J : JsonCodec) (m : MessageFrame) (bs : Bytes)
    → encode_frame J m ≡ ok bs
    → (header_size ≤ length bs) × (length bs ≤ header_size + max_message_size)
encode_frame_bound J m bs h =
    let f : IsFrame J m bs = encode_frame-IsFrame J m bs h in
    rw f.layout (omega (arith, length-append _ f.body, length-pack_le (length f.body), f.fits))

read_exactly-short :
    (n : ℕ) (s : Bytes) → length s < n → read_exactly n s ≡ (err incomplete_read, [])
unfolding read_exactly
read_exactly-short n s h = rw (lt→ltb (length s) n h)

read_exactly-drop :
    (n : ℕ) (s : Bytes)
    → ((read_exactly n s).0 ≡ err incomplete_read) ⊎ (read_exactly n s ≡ (ok (take n s), drop n s))
unfolding read_exactly
read_exactly-drop n s = ground arith

read_payload_bound :
    (J : JsonCodec) (n : ℕ) (s : Bytes)
    → (read_payload J n s).0 ≢ err incomplete_read
    → length s ≤ max_message_size + length (read_payload J n s).1
unfolding read_payload
read_payload_bound J n s h = ground (arith, read_exactly-drop n s, length-drop n s)

-- A read that does not hit the end of the stream consumes at most the header and the size limit,
-- whatever the peer sends.
pub read_frame_bound :
    (J : JsonCodec) (s : Bytes)
    → (read_frame J s).0 ≢ err incomplete_read
    → length s ≤ header_size + max_message_size + length (read_frame J s).1
unfolding read_frame
read_frame_bound J s h = ground (
  arith,
  read_exactly-drop header_size s,
  length-drop header_size s,
  read_payload_bound J (unpack_le (take header_size s)) (drop header_size s),
)

-- A declared length past the limit is refused with four bytes read.
pub read_frame-declared_too_large :
    (J : JsonCodec) (s : Bytes)
    → header_size ≤ length s
    → max_message_size < unpack_le (take header_size s)
    → read_frame J s ≡ (
      err (ReadError.framing (declared_too_large (unpack_le (take header_size s)))),
      drop header_size s,
    )
unfolding read_frame read_payload
read_frame-declared_too_large J s whole big = ground (arith, read_exactly-whole header_size s)

abbrev Agree : JsonCodec → Bytes → MessageFrame → Type 0
Agree J s m = ((read_frame J s).0 ≡ ok m) ↔ (decode_frame J s ≡ ok m)

module _ (J : JsonCodec) (L : IsLawful J) (s : Bytes) (m : MessageFrame) where
  Agree-short : length s < header_size → Agree J s m
  unfolding read_frame decode_frame
  Agree-short h = ground (arith, read_exactly-short header_size s)

  -- the empty payload is no JSON
  decode_frame-empty :
      unpack_le (take header_size s) ≡ 0
      → header_size ≤ length s
      → decode_frame J s ≡ err invalid_json
  unfolding parse_payload
  decode_frame-empty e long =
      decode_frame-payload J s 0 e (omega arith) (omega arith) ∙ rw (L.loads_empty, parse_payload)

  Agree-whole :
      (n : ℕ)
      → unpack_le (take header_size s) ≡ n
      → n ≤ max_message_size
      → 0 < n
      → header_size + n ≤ length s
      → Agree J s m
  Agree-whole n e fits positive whole =
      rw
        (
          read_frame-payload J s n e fits positive whole,
          decode_frame-payload J s n e fits whole,
          add_sub_header,
        )
        (ground arith)

  module _ (n : ℕ) (e : unpack_le (take header_size s) ≡ n) (long : header_size ≤ length s) where
    -- Neither accepts: the declared length is too large, zero, or more than what arrived.
    Agree-too_large : max_message_size < n → Agree J s m
    unfolding read_frame read_payload decode_frame
    Agree-too_large big = ground (arith, read_exactly-whole header_size s)

    Agree-empty : n ≡ 0 → Agree J s m
    unfolding read_frame read_payload
    Agree-empty zero_length = ground (arith, read_exactly-whole header_size s, decode_frame-empty)

    Agree-incomplete : n ≤ max_message_size → length s < header_size + n → Agree J s m
    unfolding read_frame read_payload decode_frame
    Agree-incomplete fits part = ground (
      arith,
      read_exactly-whole header_size s,
      read_exactly-short n (drop header_size s),
      length-drop header_size s,
    )

Agree-cases :
    (J : JsonCodec) (L : IsLawful J) (s : Bytes) (m : MessageFrame) (n : ℕ)
    → unpack_le (take header_size s) ≡ n
    → header_size ≤ length s
    → Agree J s m
Agree-cases J L s m zero e long = Agree-empty J L s m zero e long refl
Agree-cases J L s m (suc n) e long = elim (Bool-cases (ltb max_message_size (suc n))) [
  | inl big ↦ Agree-too_large J L s m (suc n) e long (ltb→lt _ _ big)
  | inr fits ↦ elim (Bool-cases (ltb (length s) (header_size + suc n))) [
    | inl part ↦ Agree-incomplete J L s m (suc n) e long (ltb→le _ _ fits) (ltb→lt _ _ part)
    | inr whole ↦ Agree-whole J L s m (suc n) e (ltb→le _ _ fits) (omega arith) (ltb→le _ _ whole)
  ]
]

-- The two decoders accept the same frames, with the same message.
pub read_frame_iff-decode_frame :
    (J : JsonCodec) (L : IsLawful J) (s : Bytes) (m : MessageFrame)
    → ((read_frame J s).0 ≡ ok m) ↔ (decode_frame J s ≡ ok m)
read_frame_iff-decode_frame J L s m = elim (Bool-cases (ltb (length s) header_size)) [
  | inl short ↦ Agree-short J L s m (ltb→lt _ _ short)
  | inr long ↦ Agree-cases J L s m _ refl (ltb→le _ _ long)
]
