-- ===== src/Vsock/Server/Laws.antt =====
-- A connection answers the messages of a client in order, and what a slow client loses.
use mathlib.Core.List.{append-nil}
use agentic_ai_tee.Base.{
  ℕ, ◌≡◌, refl, ap, sym, ◌∙◌, Bool, true, false, Option, none, some, List, [], ◌∷◌, ◌++◌, take,
  drop, Text, Value, is_json_fields, arith,
}
use agentic_ai_tee.Base.Result.{Result, ok, err}
use agentic_ai_tee.Base.Dict.{Dict}
use agentic_ai_tee.Vsock.Protocol.Codec.{Bytes, JsonCodec, IsLawful}
use agentic_ai_tee.Vsock.Protocol.{
  MessageFrame, FramingError, to_dict, header_size, unpack_le, parse_payload, read_exactly,
  read_payload, read_frame, encode_frame, lift,
}
use agentic_ai_tee.Vsock.Protocol.RoundTrip.{read_frame-encode_frame}
use agentic_ai_tee.Vsock.Server.{
  Wait, Attempt, got, Handler, Closing, client_left, Connection, parsed, read_body, read_within,
  answer, after_attempt, serve_once, handle_connection,
}

module _ (J : JsonCodec) where
  parsed-lift :
      (r : Result FramingError MessageFrame) (s rest : Bytes) (m : MessageFrame)
      → lift r s ≡ (ok m, rest)
      → ◌≡◌ {A = Attempt × Bytes} (parsed J r, s) (got m, rest)
  parsed-lift (ok a) s rest m h = ground arith
  parsed-lift (err e) s rest m h = absurd (ground arith)

  read_body-read_payload :
      (closed : Bool) (n : ℕ) (s rest : Bytes) (m : MessageFrame)
      → read_payload J n s ≡ (ok m, rest)
      → read_body J closed n s ≡ (got m, rest)
  unfolding read_body read_payload read_exactly
  read_body-read_payload closed n s rest m h =
      ground (arith, parsed-lift (parse_payload J (take n s)) (drop n s) rest m)

  -- Where the whole frame is there, a wait ends as read_frame does.
  read_within-read_frame :
      (closed : Bool) (s rest : Bytes) (m : MessageFrame)
      → read_frame J s ≡ (ok m, rest)
      → read_within J closed s ≡ (got m, rest)
  unfolding read_within read_frame read_exactly
  read_within-read_frame closed s rest m h = ground (
    arith,
    read_body-read_payload closed (unpack_le (take header_size s)) (drop header_size s) rest m,
  )

-- Messages as a client sends them: each whole within one wait, and then it leaves.
module _ (J : JsonCodec) where
  abbrev pub Sends : List MessageFrame → List Wait → Type 0
  Sends [] [] = Unit
  Sends [] (w ∷ ws) = ⊥
  Sends (m ∷ ms) [] = ⊥
  Sends (m ∷ ms) (w ∷ ws) =
      (w.shutdown ≡ false)
      × (is_json_fields (to_dict m) ≡ true)
      × (encode_frame J m ≡ ok w.arrived)
      × Sends ms ws

abbrev pub leave : Wait
leave = record { shutdown = false; arrived = []; closed = true }

module _ (J : JsonCodec) (show : Value → Text) {H : Type 0} (handlers : Dict (Handler H)) where
  abbrev pub idle : Bytes → H → Connection H
  idle written h = record { buffer = []; written = written; service = h }

  -- What the server owes: an answer to each message in turn, up to the first that closes the
  -- connection.
  unfoldable pub answer_all : List MessageFrame → Bytes → H → Closing × Connection H
  answer_all [] written h = (client_left, idle written h)
  answer_all (m ∷ ms) written h =
      let (done, written', h') = answer J show handlers m written h in
      elim done [ ok u ↦ answer_all ms written' h' | err closing ↦ (closing, idle written' h') ]

  module _ (L : IsLawful J) where
    receives :
        (m : MessageFrame) (w : Wait) (written : Bytes) (h : H)
        → w.shutdown ≡ false
        → is_json_fields (to_dict m) ≡ true
        → encode_frame J m ≡ ok w.arrived
        → serve_once J show handlers w (idle written h)
          ≡ after_attempt J show handlers (got m) [] (idle written h)
    unfolding serve_once
    receives m w written h running json sent = rw (
      running,
      read_within-read_frame J w.closed w.arrived [] m (
          ap (read_frame J) (sym (append-nil w.arrived))
          ∙ read_frame-encode_frame J L m w.arrived [] json sent),
    )

    abbrev proceed : List Wait → Option Closing × Connection H → Closing × Connection H
    proceed ws (none, c) = handle_connection J show handlers ws c
    proceed ws (some closing, c) = (closing, c)

    handle_connection-proceed :
        (w : Wait) (ws : List Wait) (c : Connection H)
        → handle_connection J show handlers (w ∷ ws) c ≡ proceed ws (serve_once J show handlers w c)
    unfolding handle_connection
    handle_connection-proceed w ws c = pair (serve_once J show handlers w c)
      where
        pair :
            (p : Option Closing × Connection H)
            → (elim p.0 [
              | none ↦ handle_connection J show handlers ws p.1
              | some closing ↦ (closing, p.1)
            ])
              ≡ proceed ws p
        pair (none, c') = refl
        pair (some closing, c') = refl

    -- An answered message, and what follows it.
    proceed-answer :
        (m : MessageFrame) (ms : List MessageFrame) (ws : List Wait) (written : Bytes) (h : H)
        → ((written' : Bytes) (h' : H)
            → handle_connection J show handlers ws (idle written' h') ≡ answer_all ms written' h')
        → proceed ws (after_attempt J show handlers (got m) [] (idle written h))
          ≡ answer_all (m ∷ ms) written h
    unfolding after_attempt answer_all
    proceed-answer m ms ws written h rest = settled (answer J show handlers m written h).0 _ _
      where
        settled :
            (done : Result Closing (Unit {0})) (written' : Bytes) (h' : H)
            → proceed ws (
              (elim done [ ok u ↦ none | err closing ↦ some closing ]),
              record { buffer = []; written = written'; service = h' },
            )
              ≡ (elim done [
                | ok u ↦ answer_all ms written' h'
                | err closing ↦ (closing, idle written' h')
              ])
        settled (ok u) written' h' = rest written' h'
        settled (err closing) written' h' = refl

    -- If a client sends messages that JSON carries faithfully, each whole within one wait, and then
    -- leaves, then the connection answers them one by one in order, up to the first that closes it, and
    -- with no message left over it ends because the client left.
    pub handle_connection-answer_all :
        (ms : List MessageFrame) (ws : List Wait) (written : Bytes) (h : H)
        → Sends J ms ws
        → handle_connection J show handlers (ws ++ (leave ∷ [])) (idle written h)
          ≡ answer_all ms written h
    unfolding handle_connection answer_all after_attempt serve_once read_within
    handle_connection-answer_all [] [] written h sends = refl
    handle_connection-answer_all [] (w ∷ ws) written h sends = absurd sends
    handle_connection-answer_all (m ∷ ms) [] written h sends = absurd sends
    handle_connection-answer_all (m ∷ ms) (w ∷ ws) written h sends =
        handle_connection-proceed w (ws ++ (leave ∷ [])) (idle written h)
        ∙ (ap (proceed (ws ++ (leave ∷ []))) (receives m w written h sends.0 sends.1 sends.2)
            ∙ proceed-answer m ms (ws ++ (leave ∷ [])) written h
                (λ written' h'. handle_connection-answer_all ms ws written' h' sends.3))
