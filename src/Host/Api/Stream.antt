-- ===== src/Host/Api/Stream.antt =====
-- event_generator of stream_task in host/api/main.py. A pass of the loop asks whether the client is gone,
-- and then waits 30 seconds for an event of the task's queue; a script lists what each pass meets.
use mathlib.Core.List.{append_assoc}
use agentic_ai_tee.Base.{
  ◌<◌, ◌≡◌, refl, ap, sym, inl, inr, Bool, true, false, ◌||◌, Bool-cases, none, some, List, [], ◌∷◌,
  ◌++◌, map, take, length, All, if◌then◌else◌, Text, codes, text_eq, Value, Fields, str, get_field,
  arith,
}

-- `await request.is_disconnected()`, and the events that are put into the queue until the wait ends
pub record Pass : Type 0 where
  pub disconnected : Bool
  pub arrived : List Fields

-- What is sent: an event with its type and its JSON, or a keepalive.
pub data Sent : Type 0 where
  event_sent : Value → Text → Sent
  ping : Sent

pub data Ended : Type 0 where
  left : Ended
  finished : Ended
  -- the script is at its end
  running : Ended

-- `event.get("event_type") in ("complete", "error")`
unfoldable pub is_final : Fields → Bool
is_final event = elim (get_field event (codes "event_type")) [
  | some (str t) ↦ text_eq t (codes "complete") || text_eq t (codes "error")
  | _ ↦ false
]

-- `event.get("event_type", "message")`
unfoldable pub type_of : Fields → Value
type_of event = elim (get_field event (codes "event_type")) [
  | none ↦ str (codes "message")
  | some v ↦ v
]

module _ (dumps : Fields → Text) where
  abbrev pub sent_of : Fields → Sent
  sent_of event = event_sent (type_of event) (dumps event)

  abbrev pub also : Sent → List Sent × Ended × List Fields → List Sent × Ended × List Fields
  also s (rest, e, queue) = (s ∷ rest, e, queue)

  -- The wait for an event, with the rest of the loop.
  unfoldable pub take_event :
      (List Fields → List Sent × Ended × List Fields)
      → List Fields
      → List Sent × Ended × List Fields
  take_event rest [] = also ping (rest [])
  take_event rest (event ∷ queue) =
      if is_final event
      then (sent_of event ∷ [], finished, queue)
      else also (sent_of event) (rest queue)

  -- What is sent, how the loop ends, and the queue that is left.
  unfoldable pub event_generator : List Pass → List Fields → List Sent × Ended × List Fields
  event_generator [] queue = ([], running, queue)
  event_generator (p ∷ ps) queue =
      if p.disconnected
      then ([], left, queue)
      else take_event (event_generator ps) (queue ++ p.arrived)

  -- The events among what is sent.
  abbrev pub events_of : List Sent → List Sent
  events_of [] = []
  events_of (ping ∷ ss) = events_of ss
  events_of (event_sent type json ∷ ss) = event_sent type json ∷ events_of ss

  -- If the client stays, and the queue holds an event that ends the stream behind others that do not,
  -- then as many passes as that end it: it sends these events, in order and without a keepalive between
  -- them, and finishes with the one that ends it.
  pub event_generator_finishes :
      (ps : List Pass) (before later : List Fields) (event : Fields)
      → All (λ p. p.disconnected ≡ false) ps
      → All (λ e. is_final e ≡ false) before
      → is_final event ≡ true
      → length before < length ps
      → let (sent, ended, queue) = event_generator ps (before ++ (event ∷ later)) in
        (ended ≡ finished) × (sent ≡ map sent_of (before ++ (event ∷ [])))
  unfolding event_generator take_event
  event_generator_finishes [] before later event there others final enough = absurd (omega arith)
  event_generator_finishes (p ∷ ps) [] later event there others final enough =
      rw (there.0, final) (refl, refl)
  event_generator_finishes (p ∷ ps) (e ∷ before) later event there others final enough =
      let (ended, sent) =
        event_generator_finishes ps before (later ++ p.arrived) event there.1 others.1 final
          (omega arith) in
      rw (there.0, others.0, append_assoc before (event ∷ later) p.arrived)
        (ended, ap (λ ss. sent_of e ∷ ss) sent)

  -- What is put into the queue while a script runs.
  abbrev pub arrivals : List Pass → List Fields
  arrivals [] = []
  arrivals (p ∷ ps) = p.arrived ++ arrivals ps

  -- The first of some events are sent.
  abbrev IsFront : List Sent × Ended × List Fields → List Fields → Type 0
  IsFront out events = let sent = events_of out.0 in sent ≡ map sent_of (take (length sent) events)

  take_event-IsFront :
      (rest : List Fields → List Sent × Ended × List Fields) (later : List Fields)
      → ((queue : List Fields) → IsFront (rest queue) (queue ++ later))
      → (queue : List Fields) → IsFront (take_event rest queue) (queue ++ later)
  unfolding take_event
  take_event-IsFront rest later h [] = h []
  take_event-IsFront rest later h (event ∷ queue) = elim (Bool-cases (is_final event)) [
    | inl final ↦ rw final refl
    | inr other ↦ rw other (ap (λ ss. sent_of event ∷ ss) (h queue))
  ]

  -- Whatever the passes meet, the events that are sent are the first ones of the queue and of what
  -- arrives, each once and in order.
  pub event_generator_order :
      (ps : List Pass) (queue : List Fields)
      → let sent = events_of (event_generator ps queue).0 in
        sent ≡ map sent_of (take (length sent) (queue ++ arrivals ps))
  unfolding event_generator
  event_generator_order [] queue = refl
  event_generator_order (p ∷ ps) queue = elim (Bool-cases p.disconnected) [
    | inl gone ↦ rw gone refl
    | inr there ↦
        rw (there, sym (append_assoc queue p.arrived (arrivals ps)))
          (take_event-IsFront (event_generator ps) (arrivals ps) (event_generator_order ps)
            (queue ++ p.arrived))
  ]
