-- ===== src/Vsock/Client/Laws.antt =====
-- A client that is answered gets its answer.
use agentic_ai_tee.Base.{
  ℕ, zero, suc, ◌≤◌, ◌<◌, ◌≡◌, refl, Bool, true, false, some, List, [], ◌∷◌, ◌++◌, All, length,
  length-append, Text, codes, is_json_fields, arith,
}
use mathlib.Core.List.{append_assoc}
use agentic_ai_tee.Base.Result.{ok}
use agentic_ai_tee.Vsock.Protocol.Codec.{Bytes, JsonCodec, IsLawful}
use agentic_ai_tee.Vsock.Protocol.{MessageFrame, to_dict, encode_frame, write_frame, pack_le}
use agentic_ai_tee.Vsock.Protocol.RoundTrip.{IsFrame, encode_frame-IsFrame, read_frame-encode_frame}
use agentic_ai_tee.Vsock.Client.{
  Peer, with_id, has_type, take_response, response_loop, exchange, send,
}

-- A frame as it is sent.
pub record Sent (J : JsonCodec) : Type 0 where
  pub frame : MessageFrame
  pub bytes : Bytes
  pub json : is_json_fields (to_dict frame) ≡ true
  pub encoded : encode_frame J frame ≡ ok bytes

abbrev pub sent_bytes : (J : JsonCodec) → List (Sent J) → Bytes
sent_bytes J [] = []
sent_bytes J (x ∷ xs) = x.bytes ++ sent_bytes J xs

abbrev pub IsEvent : MessageFrame → Type 0
IsEvent m = has_type (codes "step_event" ∷ []) m.msg_type ≡ true

bytes_pos :
    (J : JsonCodec) (m : MessageFrame) (bs : Bytes) → encode_frame J m ≡ ok bs → 0 < length bs
unfolding pack_le
bytes_pos J m bs h =
    let f : IsFrame J m bs = encode_frame-IsFrame J m bs h in rw f.layout (omega arith)

module _ (J : JsonCodec) (L : IsLawful J) (stalls : Bool) (reply : Sent J) (rest : Bytes)
    (final : has_type (codes "step_event" ∷ []) reply.frame.msg_type ≡ false) where
  response_loop-reply :
      (events : List (Sent J)) (fuel : ℕ)
      → All (λ x. IsEvent x.frame) events
      → length events < fuel
      → response_loop J stalls fuel (sent_bytes J events ++ (reply.bytes ++ rest))
        ≡ some (ok reply.frame)
  unfolding response_loop take_response
  response_loop-reply events zero h enough = absurd (omega arith)
  response_loop-reply [] (suc fuel) h enough =
      rw
        (
          read_frame-encode_frame J L reply.frame reply.bytes rest reply.json reply.encoded,
          take_response,
          final,
        )
        refl
  response_loop-reply (x ∷ xs) (suc fuel) h enough =
      rw
        (
          append_assoc x.bytes (sent_bytes J xs) (reply.bytes ++ rest),
          read_frame-encode_frame J L x.frame x.bytes (sent_bytes J xs ++ (reply.bytes ++ rest))
              x.json x.encoded,
          take_response,
          h.0,
        )
        (response_loop-reply xs fuel h.1 (omega arith))

length-sent_bytes : (J : JsonCodec) (xs : List (Sent J)) → length xs ≤ length (sent_bytes J xs)
length-sent_bytes J [] = omega arith
length-sent_bytes J (x ∷ xs) =
    rw (length-append x.bytes (sent_bytes J xs))
      (omega (arith, bytes_pos J x.frame x.bytes x.encoded, length-sent_bytes J xs))

-- If the message can be encoded, and the peer answers it by any events of steps and then by a frame that
-- is none, then `send` returns this frame, whatever else arrives behind it and whether or not the peer
-- keeps the connection open; its fuel suffices.
pub send-reply :
    (J : JsonCodec)
    → IsLawful J
    → (P : Peer) (fresh : Text) (msg : MessageFrame) (out : Bytes) (events : List (Sent J))
      (reply : Sent J) (rest : Bytes)
    → has_type (codes "step_event" ∷ []) reply.frame.msg_type ≡ false
    → encode_frame J (with_id fresh msg) ≡ ok out
    → P.answers out ≡ some (sent_bytes J events ++ (reply.bytes ++ rest))
    → All (λ x. IsEvent x.frame) events
    → send J P fresh msg ≡ some (ok reply.frame)
unfolding send write_frame exchange
send-reply J L P fresh msg out events reply rest final encoded answered h =
    rw (encoded, write_frame, exchange, answered)
      (response_loop-reply J L P.stalls reply rest final events _ h (
        rw (length-append (sent_bytes J events) (reply.bytes ++ rest))
          (omega (arith, length-sent_bytes J events))))
