-- ===== src/Vsock/Client/Tests.antt =====
-- An echo that comes behind an event.
use agentic_ai_tee.Base.{
  ◌≡◌, refl, true, some, [], ◌∷◌, ◌++◌, codes, str, dict, end, text_eq, is_json_fields, get_field,
  one_of,
}
use agentic_ai_tee.Base.Result.{ok, err}
use agentic_ai_tee.Vsock.Protocol.{
  MessageFrame, to_dict, pack_le, encode_frame, read_exactly, read_frame, write_frame,
}
use agentic_ai_tee.Vsock.Protocol.Tests.{
  small, small-IsLawful, echo, echo_bytes, echo-json, encode-echo,
}
use agentic_ai_tee.Vsock.Client.{
  Peer, timed_out, send, with_id, exchange, response_loop, take_response, read_failure,
}
use agentic_ai_tee.Vsock.Client.Laws.{Sent, sent_bytes, send-reply}

abbrev step : MessageFrame
step = record {
  msg_type = str (codes "step_event");
  payload = dict end;
  request_id = str (codes "r1");
}

step-json : is_json_fields (to_dict step) ≡ true
unfolding to_dict is_json_fields get_field text_eq
step-json = refl

encode-step : encode_frame small step ≡ ok (13 ∷ 0 ∷ 0 ∷ 0 ∷ 10 ∷ codes "step_eventr1")
unfolding encode_frame to_dict pack_le text_eq
encode-step = refl

abbrev stepped : Sent small
stepped = record {
  frame = step;
  bytes = 13 ∷ 0 ∷ 0 ∷ 0 ∷ 10 ∷ codes "step_eventr1";
  json = step-json;
  encoded = encode-step;
}

abbrev echoed : Sent small
echoed = record { frame = echo; bytes = echo_bytes; json = echo-json; encoded = encode-echo }

abbrev peer : Peer
peer = record {
  answers = λ sent. some (sent_bytes small (stepped ∷ []) ++ (echo_bytes ++ (7 ∷ [])));
  stalls = true;
}

with_id-echo : encode_frame small (with_id (codes "r9") echo) ≡ ok echo_bytes
unfolding with_id encode_frame to_dict pack_le text_eq
with_id-echo = refl

send-reply_example : send small peer (codes "r9") echo ≡ some (ok echo)
unfolding one_of text_eq
send-reply_example =
    send-reply small small-IsLawful peer (codes "r9") echo echo_bytes (stepped ∷ []) echoed (7 ∷ [])
      refl with_id-echo refl (refl, tt)

-- A peer that stalls before it has answered.
unanswered :
    send small (record { answers = λ sent. some (7 ∷ []); stalls = true }) (codes "r9") echo
    ≡ some (err timed_out)
unfolding send with_id exchange response_loop take_response read_failure read_frame read_exactly
    write_frame encode_frame to_dict pack_le text_eq
unanswered = refl
