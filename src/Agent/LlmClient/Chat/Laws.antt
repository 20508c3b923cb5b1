-- ===== src/Agent/LlmClient/Chat/Laws.antt =====
-- What the clients of OpenAI-compatible interfaces read in a reply.
use agentic_ai_tee.Base.{
  ℕ, suc, ◌≡◌, refl, Bool, true, false, Option, none, some, List, [], ◌∷◌, ◌++◌, map, Text, codes,
  is_empty, if◌then◌else◌, truthy, Value, Items, Fields, nil, cons, dict, str, list, end,
  get_field_or, int, pos,
}
use agentic_ai_tee.Base.Optional.{Every, absent, holds, >>=-Every, >>=-Every-with}
use agentic_ai_tee.Agent.Models.{
  ContentBlock, text_block, thinking_block, tool_use_block, tool_result_block, ToolUse, tool_uses,
}
use agentic_ai_tee.Agent.Controller.Context.Laws.{answer_ids}
use agentic_ai_tee.Agent.LlmClient.Convert.{joined_text}
use agentic_ai_tee.Agent.LlmClient.Chat.{
  as_dict, as_text, as_items, as_count, first_choice, finish_reason, reply_text, call_arguments,
  reply_call, reply_calls, reply_blocks, chat_response,
}

-- The text, if there is one, and the tool calls: what is left of an assistant's message.
unfoldable pub spoken : List ContentBlock → List ContentBlock
spoken bs =
    (if is_empty (joined_text bs) then [] else text_block (joined_text bs) ∷ [])
    ++ map tool_use_block (tool_uses bs)

module _ (dumps : Fields → Text) (loads : Text → Option Value) (fresh_id : ℕ → Text) where
  -- `loads` reads what `dumps` writes of the arguments of a tool call.
  abbrev pub Reads : ToolUse → Type 0
  Reads u = loads (dumps u.input) ≡ some (dict u.input)

-- Blocks without tool results.
abbrev pub CallsOnly : List ContentBlock → Type 0
CallsOnly bs = answer_ids bs ≡ []

empty_or_absent : (b : Bool) → Every CallsOnly (if b then none else some [])
empty_or_absent true = absent
empty_or_absent false = holds refl

reply_text-CallsOnly : (v : Value) → Every CallsOnly (reply_text v)
unfolding reply_text
reply_text-CallsOnly (str []) = holds refl
reply_text-CallsOnly (str (c ∷ t)) = holds refl
reply_text-CallsOnly v = empty_or_absent (truthy v)

append-CallsOnly : (bs cs : List ContentBlock) → CallsOnly bs → CallsOnly cs → CallsOnly (bs ++ cs)
append-CallsOnly [] cs hb hc = hc
append-CallsOnly (tool_result_block r ∷ bs) cs hb hc = absurd (cc)
append-CallsOnly (text_block t ∷ bs) cs hb hc = append-CallsOnly bs cs hb hc
append-CallsOnly (thinking_block t s ∷ bs) cs hb hc = append-CallsOnly bs cs hb hc
append-CallsOnly (tool_use_block u ∷ bs) cs hb hc = append-CallsOnly bs cs hb hc

module _ (loads : Text → Option Value) (fresh_id : ℕ → Text) where
  reply_call-CallsOnly :
      (i : ℕ) (tc : Value) → Every (λ b. CallsOnly (b ∷ [])) (reply_call loads fresh_id i tc)
  unfolding reply_call
  reply_call-CallsOnly i tc = >>=-Every _ (as_dict tc) _ (λ d.
      >>=-Every _ (as_dict (get_field_or d (codes "function") (dict end))) _ (λ f.
        >>=-Every _ (call_arguments loads fresh_id (get_field_or f (codes "arguments") (dict end)))
          _
          (λ args. >>=-Every _ (as_text (get_field_or d (codes "id") (str (fresh_id i)))) _ (λ id.
            >>=-Every _ (as_text (get_field_or f (codes "name") (str []))) _ (λ name.
              holds {a = tool_use_block (record { id = id; name = name; input = args })} refl)))))

  reply_calls-CallsOnly : (i : ℕ) (tcs : Items) → Every CallsOnly (reply_calls loads fresh_id i tcs)
  unfolding reply_calls
  reply_calls-CallsOnly i nil = holds refl
  reply_calls-CallsOnly i (cons tc tcs) =
      >>=-Every-with _ _ (reply_call loads fresh_id i tc) _ (reply_call-CallsOnly i tc) (λ b one.
        >>=-Every-with _ _ (reply_calls loads fresh_id (suc i) tcs) _
          (reply_calls-CallsOnly (suc i) tcs)
          (λ bs h. holds {a = b ∷ bs} (append-CallsOnly (b ∷ []) bs one h)))

  reply_blocks-CallsOnly :
      (message : Fields) → Every CallsOnly (reply_blocks loads fresh_id message)
  unfolding reply_blocks
  reply_blocks-CallsOnly message =
      >>=-Every-with _ _ (reply_text (get_field_or message (codes "content") (str []))) _
        (reply_text-CallsOnly (get_field_or message (codes "content") (str [])))
        (λ ts ht.
          >>=-Every _ (as_items (get_field_or message (codes "tool_calls") (list nil))) _ (λ tcs.
            >>=-Every-with _ _ (reply_calls loads fresh_id 0 tcs) _ (reply_calls-CallsOnly 0 tcs)
              (λ bs hb. holds {a = ts ++ bs} (append-CallsOnly ts bs ht hb))))

  -- A response read in a reply holds no tool results.
  pub chat_response-CallsOnly :
      (elapsed : ℕ) (reply : Value)
      → Every (λ r. CallsOnly r.content) (chat_response loads fresh_id elapsed reply)
  unfolding chat_response
  chat_response-CallsOnly elapsed reply = >>=-Every _ (as_dict reply) _ (λ body.
      >>=-Every _ (first_choice (get_field_or body (codes "choices") (list (cons (dict end) nil))))
        _
        (λ choice.
          >>=-Every _ (as_dict (get_field_or choice (codes "message") (dict end))) _ (λ message.
            >>=-Every _ (as_dict (get_field_or body (codes "usage") (dict end))) _ (λ usage.
              >>=-Every-with _ _ (reply_blocks loads fresh_id message) _
                (reply_blocks-CallsOnly message)
                (λ content h.
                  >>=-Every _ (finish_reason (get_field_or choice (codes "finish_reason") (str [])))
                    _
                    (λ reason.
                      >>=-Every _
                        (as_count (get_field_or usage (codes "prompt_tokens") (int (pos 0)))) _
                        (λ i.
                          >>=-Every _
                            (as_count
                              (get_field_or usage (codes "completion_tokens") (int (pos 0))))
                            _
                            (λ o.
                              holds
                                {a = record {
                                  content = content;
                                  input_tokens = i;
                                  output_tokens = o;
                                  latency_ms = elapsed;
                                  stop_reason = reason;
                                }}
                                h))))))))
