-- ===== src/Host/Api.antt =====
-- host/api/main.py: the gateway's tasks and the stream of a task's events. A dollar is a million, a time
-- is in milliseconds; the id of a task (of `uuid`), the clock and `json.dumps` are given.
pub mod Laws
pub mod Stream
pub mod Tests
use agentic_ai_tee.Base.{
  ℕ, suc, ◌+◌, ◌-◌, min, Bool, true, false, ◌&&◌, Option, none, some, List, [], ◌∷◌, ◌++◌,
  if◌then◌else◌, leb, length, take, drop, ℤ, pos, negsuc, Text, codes, text_eq,
}
use agentic_ai_tee.Base.Dict
use agentic_ai_tee.Base.Dict.{Dict, values}
use agentic_ai_tee.Base.Result.{Result, ok, err}
use agentic_ai_tee.Base.Sorting.{sort_desc, by_key}

pub record TaskSubmission : Type 0 where
  pub description : Text
  pub budget_usd : ℕ
  pub max_steps : ℕ
  pub timeout_ms : ℕ

-- The bounds of the fields; FastAPI answers 422 outside of them.
unfoldable pub is_valid : TaskSubmission → Bool
is_valid s =
    (leb 1 (length s.description) && leb (length s.description) 50_000)
    && ((leb 10_000 s.budget_usd && leb s.budget_usd 100_000_000)
        && ((leb 1 s.max_steps && leb s.max_steps 200)
            && (leb 10_000 s.timeout_ms && leb s.timeout_ms 3_600_000)))

-- `task_record`; its "result" is None, and nothing changes it.
pub record TaskRecord : Type 0 where
  pub task_id : Text
  pub description : Text
  pub budget_usd : ℕ
  pub max_steps : ℕ
  pub timeout_ms : ℕ
  pub status : Text
  pub created_at : ℕ

-- `_tasks`, and the queues of `_task_events`, for events of type `V`
pub record Gateway (V : Type 0) : Type 0 where
  pub tasks : Dict TaskRecord
  pub task_events : Dict (List V)

abbrev pub new_gateway : (V : Type 0) → Gateway V
new_gateway V = record { tasks = []; task_events = [] }

-- An HTTPException: the status code and the detail.
pub record HttpError : Type 0 where
  pub status_code : ℕ
  pub detail : Text

abbrev pub not_found : HttpError
not_found = record { status_code = 404; detail = codes "Task not found" }

pub record AttestationResponse : Type 0 where
  pub valid : Bool
  pub pcrs : List (Text × Text)
  pub image_hash_match : Bool

abbrev mock_attestation : AttestationResponse
mock_attestation = record {
  valid = true;
  pcrs = (codes "0", codes "mock") ∷ (codes "1", codes "mock") ∷ (codes "2", codes "mock") ∷ [];
  image_hash_match = true;
}

unfoldable pub new_record : TaskSubmission → Text → ℕ → TaskRecord
new_record s task_id now = record {
  task_id = task_id;
  description = s.description;
  budget_usd = s.budget_usd;
  max_steps = s.max_steps;
  timeout_ms = s.timeout_ms;
  status = codes "queued";
  created_at = now;
}

-- What get_attestation makes of a task.
unfoldable pub attestation_of : TaskRecord → Result HttpError AttestationResponse
attestation_of t =
    if text_eq t.status (codes "completed")
    then ok mock_attestation
    else err (record {
      status_code = 400;
      detail =
          codes "Task is "
          ++ (t.status ++ codes ", attestation only available for completed tasks");
    })

unfoldable pub found_attestation : Option TaskRecord → Result HttpError AttestationResponse
found_attestation none = err not_found
found_attestation (some t) = attestation_of t

abbrev pub found_task : Option TaskRecord → Result HttpError TaskRecord
found_task none = err not_found
found_task (some t) = ok t

module _ {V : Type 0} where
  unfoldable pub submit_task :
      TaskSubmission → Text → ℕ → Gateway V → Result HttpError Text × Gateway V
  submit_task s task_id now g =
      if is_valid s
      then (
        ok task_id,
        record {
          tasks = Dict.put g.tasks task_id (new_record s task_id now);
          task_events = Dict.put g.task_events task_id [];
        },
      )
      else (err (record { status_code = 422; detail = codes "Unprocessable Entity" }), g)

  unfoldable pub get_task : Text → Gateway V → Result HttpError TaskRecord
  get_task task_id g = found_task (Dict.get g.tasks task_id)

  unfoldable pub get_attestation : Text → Gateway V → Result HttpError AttestationResponse
  get_attestation task_id g = found_attestation (Dict.get g.tasks task_id)

-- Python's bounds of a slice
abbrev pub clip : ℕ → ℤ → ℕ
clip len (pos n) = min n len
clip len (negsuc n) = len - suc n

infixl 60 ◌+ℤ◌
abbrev pub ◌+ℤ◌ : ℤ → ℤ → ℤ
pos a +ℤ pos b = pos (a + b)
pos a +ℤ negsuc b = if leb (suc b) a then pos (a - suc b) else negsuc (b - a)
negsuc a +ℤ pos b = if leb (suc a) b then pos (b - suc a) else negsuc (a - b)
negsuc a +ℤ negsuc b = negsuc (suc (a + b))

unfoldable pub py_slice {ℓ} : {A : Type ℓ} → ℤ → ℤ → List A → List A
py_slice start stop xs =
    let len = length xs in take (clip len stop - clip len start) (drop (clip len start) xs)

abbrev pub newest_first : TaskRecord → TaskRecord → Bool
newest_first = by_key (λ t. t.created_at)

module _ {V : Type 0} where
  -- the tasks of a page, and their total
  unfoldable pub list_tasks : ℤ → ℤ → Gateway V → List TaskRecord × ℕ
  list_tasks limit offset g = (
    py_slice offset (offset +ℤ limit) (sort_desc newest_first (values g.tasks)),
    length (values g.tasks),
  )
