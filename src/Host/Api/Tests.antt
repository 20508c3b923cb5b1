-- ===== src/Host/Api/Tests.antt =====
-- The gateway on short scripts.
use agentic_ai_tee.Base.{
  ℕ, ◌≡◌, refl, true, false, List, [], ◌∷◌, ◌++◌, map, Text, codes, text_eq, Fields, end, field,
  str, get_field, arith,
}
use agentic_ai_tee.Host.Api.{TaskSubmission}
use agentic_ai_tee.Host.Api.Stream.{
  Pass, finished, is_final, event_generator, sent_of, event_generator_finishes,
}

abbrev submission : TaskSubmission
submission = record {
  description = codes "Sort.";
  budget_usd = 5_000_000;
  max_steps = 50;
  timeout_ms = 300_000;
}

abbrev submitted : List (TaskSubmission × Text × ℕ)
submitted = (submission, codes "a", 10) ∷ (submission, codes "b", 20) ∷ []

abbrev event : Text → Fields
event type = field (codes "event_type") (str type) end

abbrev dumps : Fields → Text
dumps d = codes "{}"

abbrev quiet : Pass
quiet = record { disconnected = false; arrived = [] }

abbrev busy : Pass
busy = record { disconnected = false; arrived = event (codes "late") ∷ [] }

chunk_not_final : is_final (event (codes "chunk")) ≡ false
unfolding is_final get_field text_eq
chunk_not_final = refl

complete_final : is_final (event (codes "complete")) ≡ true
unfolding is_final get_field text_eq
complete_final = refl

event_generator_finishes_example :
    let (sent, ended, queue) =
      event_generator dumps
        (busy ∷ quiet ∷ quiet ∷ [])
        ((event (codes "chunk") ∷ []) ++ (event (codes "complete") ∷ [])) in
    (ended ≡ finished)
    × (sent ≡ map (sent_of dumps) ((event (codes "chunk") ∷ []) ++ (event (codes "complete") ∷ [])))
event_generator_finishes_example =
    event_generator_finishes dumps (busy ∷ quiet ∷ quiet ∷ []) (event (codes "chunk") ∷ []) []
      (event (codes "complete")) (refl, (refl, (refl, tt))) (chunk_not_final, tt) complete_final
      (omega arith)
