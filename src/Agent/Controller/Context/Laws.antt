-- ===== src/Agent/Controller/Context/Laws.antt =====
-- What a compaction keeps, and that it never parts a tool result from its tool call.
use mathlib.Core.Path.{subst}
use agentic_ai_tee.Base.{
  ℕ, zero, suc, ◌+◌, ◌-◌, ◌≤◌, ◌<◌, ◌≡◌, ◌⊎◌, inl, inr, refl, ap, sym, ◌∙◌, false, List, [], ◌∷◌,
  leb, length, take, drop, last_n, is_empty, sum_by, Text, arith, tests, All, length-drop,
  length-take, length-last_n, Bool-cases,
}
use agentic_ai_tee.Agent.Models.{
  ContentBlock, tool_use_block, tool_result_block, Content, plain, blocks, Message, Role, user,
  assistant,
}
use agentic_ai_tee.Tools.Router.{Format}
use agentic_ai_tee.Agent.Controller.Context.{
  min_recent_messages, estimate_message_tokens, summary_message, middle_messages, compact_history,
}

-- The ids of the tool calls of a content, and of the calls that it answers.
abbrev pub call_ids : List ContentBlock → List Text
call_ids [] = []
call_ids (tool_use_block u ∷ bs) = u.id ∷ call_ids bs
call_ids (_ ∷ bs) = call_ids bs

abbrev pub answer_ids : List ContentBlock → List Text
answer_ids [] = []
answer_ids (tool_result_block r ∷ bs) = r.tool_use_id ∷ answer_ids bs
answer_ids (_ ∷ bs) = answer_ids bs

abbrev pub calls : Content → List Text
calls (plain t) = []
calls (blocks bs) = call_ids bs

abbrev pub answers : Content → List Text
answers (plain t) = []
answers (blocks bs) = answer_ids bs

-- Only the assistant calls tools, and only the user's side answers.
abbrev pub HasRole : Message → Type 0
HasRole m = (m.role ≡ user → calls m.content ≡ []) × (m.role ≡ assistant → answers m.content ≡ [])

-- Each message answers exactly the calls of the message before it, in order.
abbrev pub Follows : List Text → List Message → Type 0
Follows pending [] = Unit
Follows pending (m ∷ ms) = (answers m.content ≡ pending) × Follows (calls m.content) ms

abbrev pub other : Role → Role
other user = assistant
other assistant = user

-- The roles alternate from `r` on, and the last message is the user's.
abbrev pub Turns : Role → List Message → Type 0
Turns r [] = r ≡ assistant
Turns r (m ∷ ms) = (m.role ≡ r) × Turns (other r) ms

recent_length :
    (ms : List Message)
    → min_recent_messages + 2 ≤ length ms
    → length (last_n min_recent_messages ms) ≡ 6
recent_length ms h = omega (arith, length-last_n min_recent_messages ms)

-- The last six of two messages and six more.
last_n-behind :
    (a b : Message) (ms : List Message)
    → length ms ≡ 6
    → last_n min_recent_messages (a ∷ b ∷ ms) ≡ ms
last_n-behind a b ms h = rw (ap (λ n. suc (suc n) - min_recent_messages) h)

length_pos : (ms : List Message) → is_empty ms ≡ false → 0 < length ms
length_pos [] h = absurd (cc)
length_pos (m ∷ ms) h = omega arith

middle_length :
    (ms : List Message)
    → leb (length ms) min_recent_messages ≡ false
    → is_empty (middle_messages ms) ≡ false
    → min_recent_messages + 2 ≤ length ms
middle_length ms long some_between = omega (
  tests,
  length_pos (middle_messages ms) some_between,
  length-drop 1 (take (length ms - min_recent_messages) ms),
  length-take (length ms - min_recent_messages) ms,
)

module _ (F : Format) where
  -- the three ends of a compaction, as one list of two shapes
  compact_history-cases :
      (first : Message) (later : List Message) (target system : ℕ)
      → let messages = first ∷ later in
        (compact_history F messages target system ≡ messages)
        ⊎ ((min_recent_messages + 2 ≤ length messages)
            × (compact_history F messages target system
                ≡ first
                  ∷ summary_message F (middle_messages messages)
                  ∷ last_n min_recent_messages messages))
  unfolding compact_history
  compact_history-cases first later target system =
      elim (Bool-cases (leb (length (first ∷ later)) min_recent_messages)) [
        | inl short ↦ inl (rw short)
        | inr long ↦
            elim (Bool-cases
              (leb (sum_by (estimate_message_tokens F) (first ∷ later) + system) target)) [
                | inl fits ↦ inl (rw (long, fits))
                | inr big ↦ elim (Bool-cases (is_empty (middle_messages (first ∷ later)))) [
                  | inl none_between ↦ inl (rw (long, big, none_between))
                  | inr some_between ↦ inr (
                    middle_length (first ∷ later) long some_between,
                    rw (long, big, some_between),
                  )
                ]
              ]
      ]

  -- A compaction keeps the first message and the last six, never makes a history longer, and where
  -- it changes the history, that has at least eight messages and the result has exactly eight.
  pub compact_history_keeps :
      (messages : List Message) (target system : ℕ)
      → let compacted = compact_history F messages target system in
        (take 1 compacted ≡ take 1 messages)
        × (last_n min_recent_messages compacted ≡ last_n min_recent_messages messages)
        × ((compacted ≡ messages) ⊎ ((8 ≤ length messages) × (length compacted ≡ 8)))
  unfolding compact_history
  compact_history_keeps [] target system = (refl, refl, inl refl)
  compact_history_keeps (first ∷ later) target system =
      elim (compact_history-cases first later target system) [
        | inl same ↦ (ap (take 1) same, ap (last_n min_recent_messages) same, inl same)
        | inr (long, cut) ↦ (
          ap (take 1) cut,
          ap (last_n min_recent_messages) cut
              ∙ last_n-behind first _ (last_n min_recent_messages (first ∷ later))
                  (recent_length (first ∷ later) long),
          inr (long, ap length cut ∙ ap (λ n. suc (suc n)) (recent_length (first ∷ later) long)),
        )
      ]

Follows-drop :
    (k : ℕ) (pending : List Text) (ms : List Message)
    → Follows pending ms
    → (p : List Text) × Follows p (drop k ms)
Follows-drop zero pending ms h = (pending, h)
Follows-drop (suc k) pending [] h = (pending, tt)
Follows-drop (suc k) pending (m ∷ ms) h = Follows-drop k (calls m.content) ms h.1

All-drop {ℓ κ} : {A : Type ℓ} (P : A → Type κ) (k : ℕ) (xs : List A) → All P xs → All P (drop k xs)
All-drop P zero xs h = h
All-drop P (suc k) [] h = h
All-drop P (suc k) (x ∷ xs) h = All-drop P k xs h.1

-- Six messages that alternate and end with the user's begin with the assistant's.
Turns-of_six : (r : Role) (ms : List Message) → length ms ≡ 6 → Turns r ms → Turns assistant ms
Turns-of_six user (a ∷ b ∷ c ∷ d ∷ e ∷ f ∷ []) h t = absurd (cc)
Turns-of_six assistant ms h t = t
Turns-of_six user ms h t = absurd (omega arith)

-- What the assistant says first may follow a message with no calls.
Follows-assistant :
    (p : List Text) (ms : List Message)
    → 0 < length ms
    → Turns assistant ms
    → All HasRole ms
    → Follows p ms
    → Follows [] ms
Follows-assistant p [] h t r f = tt
Follows-assistant p (m ∷ ms) h t r f = (r.0.1 t.0, f.1)

module _ (F : Format) where
  -- If in a history every message answers exactly the calls of the message before it, only the
  -- assistant calls and only the user's side answers, the first message is the user's, and the last
  -- six alternate and end with the user's, then in the compacted history, too, every message answers
  -- exactly the calls of the message before it.
  pub compact_history-Follows :
      (first : Message) (later : List Message) (target system : ℕ) (r : Role)
      → Follows [] (first ∷ later)
      → All HasRole (first ∷ later)
      → first.role ≡ user
      → Turns r (last_n min_recent_messages (first ∷ later))
      → Follows [] (compact_history F (first ∷ later) target system)
  unfolding summary_message
  compact_history-Follows first later target system r f roles is_user t =
      elim (compact_history-cases F first later target system) [
        | inl same ↦ subst (Follows []) (sym same) f
        | inr (long, cut) ↦
            let recent = last_n min_recent_messages (first ∷ later) in
            let k = length (first ∷ later) - min_recent_messages in
            let six = recent_length (first ∷ later) long in
            let (p, follows) = Follows-drop k [] (first ∷ later) f in
            subst (Follows []) (sym cut) (
              f.0,
              (
                sym (roles.0.0 is_user),
                Follows-assistant p recent (omega arith) (Turns-of_six r recent six t)
                    (All-drop HasRole k (first ∷ later) roles) follows,
              ),
            )
      ]
