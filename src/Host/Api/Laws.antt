-- ===== src/Host/Api/Laws.antt =====
-- What the gateway answers after any submissions.
use agentic_ai_tee.Base.{
  ℕ, ◌≡◌, refl, ap, ◌∙◌, inl, inr, Bool, true, false, Bool-cases, Option, none, some, List, [], ◌∷◌,
  ◌++◌, if◌then◌else◌, Text, codes, text_eq, arith,
}
use agentic_ai_tee.Base.Dict
use agentic_ai_tee.Base.Dict.{Dict, get-put}
use agentic_ai_tee.Base.Result.{ok, err}
use agentic_ai_tee.Host.Api.{
  TaskSubmission, is_valid, TaskRecord, Gateway, new_gateway, HttpError, not_found, new_record,
  submit_task, get_task, found_task, attestation_of, found_attestation, get_attestation,
}

found_task-if :
    (b : Bool) (t : TaskRecord) (o : Option TaskRecord)
    → found_task (if b then some t else o) ≡ (if b then ok t else found_task o)
found_task-if true t o = refl
found_task-if false t o = refl

unattested :
    (o : Option TaskRecord)
    → ((t : TaskRecord) → o ≡ some t → t.status ≡ codes "queued")
    → (e : HttpError) × (found_attestation o ≡ err e)
unfolding found_attestation attestation_of text_eq
unattested none h = (not_found, refl)
unattested (some t) h = (
  record {
    status_code = 400;
    detail =
        codes "Task is " ++ (t.status ++ codes ", attestation only available for completed tasks");
  },
  rw (h t refl) refl,
)

module _ {V : Type 0} where
  -- A submission within the bounds is stored: its id finds its record, and every other id what it found.
  -- One outside of them changes nothing.
  pub submit_task_lem :
      (s : TaskSubmission) (task_id : Text) (now : ℕ) (g : Gateway V)
      → let g' = (submit_task s task_id now g).1 in
        (is_valid s ≡ true
          → (j : Text)
          → get_task j g'
            ≡ (if text_eq task_id j then ok (new_record s task_id now) else get_task j g))
        × (is_valid s ≡ false → g' ≡ g)
  unfolding submit_task get_task
  submit_task_lem s task_id now g = (
    (λ good j. rw good (
        ap found_task (get-put g.tasks task_id j (new_record s task_id now))
        ∙ found_task-if (text_eq task_id j) (new_record s task_id now) (Dict.get g.tasks j))),
    (λ bad. rw bad refl),
  )

  -- Submissions, one after the other, each with its id and time.
  unfoldable pub submit_all : List (TaskSubmission × Text × ℕ) → Gateway V → Gateway V
  submit_all [] g = g
  submit_all ((s, task_id, now) ∷ ss) g = submit_all ss (submit_task s task_id now g).1

  AllQueued : Gateway V → Type 0
  AllQueued g =
      (j : Text) (t : TaskRecord) → Dict.get g.tasks j ≡ some t → t.status ≡ codes "queued"

  submit_task-AllQueued :
      (s : TaskSubmission) (task_id : Text) (now : ℕ) (g : Gateway V)
      → AllQueued g
      → AllQueued (submit_task s task_id now g).1
  unfolding AllQueued submit_task new_record
  submit_task-AllQueued s task_id now g h j t found = elim (Bool-cases (is_valid s)) [
    | inl good ↦ ground (arith, h j t, get-put g.tasks task_id j (new_record s task_id now))
    | inr bad ↦ ground (arith, h j t)
  ]

  submit_all-AllQueued :
      (ss : List (TaskSubmission × Text × ℕ)) (g : Gateway V)
      → AllQueued g
      → AllQueued (submit_all ss g)
  unfolding submit_all
  submit_all-AllQueued [] g h = h
  submit_all-AllQueued ((s, task_id, now) ∷ ss) g h =
      submit_all-AllQueued ss (submit_task s task_id now g).1
        (submit_task-AllQueued s task_id now g h)

-- Whatever was submitted, the gateway attests no task: it answers that there is none of this id, or
-- that it is not completed.
pub get_attestation_refused :
    (V : Type 0) (ss : List (TaskSubmission × Text × ℕ)) (task_id : Text)
    → (e : HttpError) × (get_attestation task_id (submit_all ss (new_gateway V)) ≡ err e)
unfolding get_attestation AllQueued Dict.get
get_attestation_refused V ss task_id =
    unattested (Dict.get (submit_all ss (new_gateway V)).tasks task_id)
      (submit_all-AllQueued ss (new_gateway V) (λ j t found. absurd (cc)) task_id)
