-- ===== src/Vsock/Server/Tests.antt =====
-- A connection that echoes.
use agentic_ai_tee.Base.{ℕ, suc, ◌≡◌, refl, false, some, [], ◌∷◌, ◌++◌, Text, codes, Value, text_eq}
use agentic_ai_tee.Base.Result.{ok}
use agentic_ai_tee.Base.Dict
use agentic_ai_tee.Base.Dict.{Dict}
use agentic_ai_tee.Vsock.Protocol.{pack_le, write_frame, encode_frame, to_dict}
use agentic_ai_tee.Vsock.Protocol.Tests.{
  small, small-IsLawful, echo, echo_bytes, echo-json, encode-echo,
}
use agentic_ai_tee.Vsock.Server.{
  Wait, Handler, client_left, respond, find_handler, send_response, answer, handle_connection,
}
use agentic_ai_tee.Vsock.Server.Laws.{leave, idle, answer_all, handle_connection-answer_all}

-- The handler counts its calls and sends the message back.
abbrev echo_handler : Handler ℕ
echo_handler msg written h = (ok (some msg), written, suc h)

abbrev handlers : Dict (Handler ℕ)
handlers = (codes "echo", echo_handler) ∷ []

abbrev show : Value → Text
show v = codes "?"

abbrev send_echo : Wait
send_echo = record { shutdown = false; arrived = echo_bytes; closed = false }

handle_connection-answer_all_example :
    handle_connection small show handlers
      ((send_echo ∷ send_echo ∷ []) ++ (leave ∷ []))
      (idle small show handlers [] 0)
    ≡ answer_all small show handlers (echo ∷ echo ∷ []) [] 0
handle_connection-answer_all_example =
    handle_connection-answer_all small show handlers small-IsLawful (echo ∷ echo ∷ [])
      (send_echo ∷ send_echo ∷ []) [] 0
      (refl, echo-json, encode-echo, (refl, echo-json, encode-echo, tt))

both_answered :
    answer_all small show handlers (echo ∷ echo ∷ []) [] 0
    ≡ (client_left, idle small show handlers (echo_bytes ++ echo_bytes) 2)
unfolding answer_all answer find_handler respond send_response write_frame encode_frame to_dict
    pack_le Dict.get text_eq
both_answered = refl
