-- ===== src/Service/Tasks.antt =====
-- EnclaveService._handle_task_request of enclave/main.py. The frames of the events that it streams to a
-- writer meanwhile are left out: it writes what is queued before the task of that loop is cancelled.
pub mod Laws
use agentic_ai_tee.Base.{
  ℕ, Bool, Option, none, some, List, [], ◌∷◌, reverse, if◌then◌else◌, is_empty, length, pos, Text,
  codes, strip, Value, Fields, none_value, bool, int, str, dict, end, field,
}
use agentic_ai_tee.Base.Result.{Result, ok, err}
use agentic_ai_tee.Base.Optional.{◌>>=◌}
use agentic_ai_tee.Agent.Models.{StepResult, TaskRequest, TaskResult}
use agentic_ai_tee.Agent.Controller.State.{Controller}
use agentic_ai_tee.Agent.Controller.Loop.{run_task}
use agentic_ai_tee.Memory.StateDb.{
  Db, DbError, create_task, complete_task, record_step, unique_failed,
}
use agentic_ai_tee.Tools.Router.{Format}
use agentic_ai_tee.Vsock.Protocol.{MessageFrame}
use agentic_ai_tee.Service.State.{Config, State, text_or, number_or, count_of}

-- What the handler takes from outside: numbers of a payload as millionths of a dollar and as
-- milliseconds, and those as values of a reply; `json.dumps`; the PCR values of a fresh attestation
-- document for some user data; and the hex of the enclave's detached signature of a text.
pub record Outside : Type 0 where
  pub usd_of : Value → Option ℕ
  pub ms_of : Value → Option ℕ
  pub usd : ℕ → Value
  pub seconds : ℕ → Value
  pub dumps : Fields → Text
  pub document_pcrs : Option Text → Fields
  pub sign : Text → Text
  -- the message of what is raised on a payload of another form
  pub unreadable : Text

-- The readings of the clock: when the task is created, completed, and each step recorded; and how long
-- the task took.
pub record Times : Type 0 where
  pub created : ℕ
  pub completed : ℕ
  pub recorded : StepResult → ℕ
  pub elapsed : ℕ

module _ (O : Outside) where
  -- `TaskRequest(…)` from the payload
  unfoldable pub task_of : Config → Value → Option TaskRequest
  task_of config (dict payload) = do
    task_id ← text_or payload (codes "task_id") []
    user_id ← text_or payload (codes "user_id") (codes "anonymous")
    description ← text_or payload (codes "description") []
    max_steps ← number_or count_of payload (codes "max_steps") config.default_max_steps
    budget ← number_or O.usd_of payload (codes "budget_usd") config.default_budget
    timeout ← number_or O.ms_of payload (codes "timeout_seconds") config.default_timeout
    some (record {
      description = description;
      task_id = task_id;
      user_id = user_id;
      budget_usd = budget;
      max_steps = max_steps;
      timeout_ms = timeout;
      tool_allowlist = none;
      domain_allowlist = none;
    })
  task_of config _ = none

-- the last response of the steps with text, stripped; `steps` is reversed
unfoldable pub last_text : List StepResult → Text
last_text [] = []
last_text (s ∷ ss) =
    let rest = last_text ss in
    if is_empty (strip s.llm_response) then rest else strip s.llm_response

-- `response_text`: the summary stands in where no step has text, but not where there is no step.
unfoldable pub reply_of : TaskResult → Text
reply_of result =
    if is_empty result.steps
    then []
    else if is_empty (last_text (reverse result.steps))
    then result.summary
    else last_text (reverse result.steps)

abbrev pub text_or_none : Option Text → Value
text_or_none none = none_value
text_or_none (some t) = str t

abbrev pub text_or_no_data : Text → Option Text
text_or_no_data t = if is_empty t then none else some t

module _ (O : Outside) where
  -- `receipt`
  unfoldable pub receipt : TaskResult → Fields
  receipt result = field (codes "task_id") (str result.task_id) (
      field (codes "task_hash") (str result.attestation_hash) (
        field (codes "pcrs") (dict (O.document_pcrs (text_or_no_data result.attestation_hash)))
          (field (codes "signature") (str (O.sign result.attestation_hash)) end)))

  unfoldable pub result_payload : ℕ → TaskResult → Fields
  result_payload elapsed result = field (codes "task_id") (str result.task_id) (
      field (codes "success") (bool result.success) (
        field (codes "summary") (str result.summary) (
          field (codes "response") (str (reply_of result)) (
            field (codes "total_cost_usd") (O.usd result.total_cost_usd) (
              field (codes "elapsed_seconds") (O.seconds elapsed) (
                field (codes "steps_count") (int (pos (length result.steps))) (
                  field (codes "error") (text_or_none result.error)
                    (field (codes "attestation") (dict (receipt result)) end))))))))

  unfoldable pub result_frame : Value → ℕ → TaskResult → MessageFrame
  result_frame request_id elapsed result = record {
    msg_type = str (codes "task_result");
    payload = dict (result_payload elapsed result);
    request_id = request_id;
  }

unfoldable pub empty_description : Value → MessageFrame
empty_description request_id = record {
  msg_type = str (codes "task_error");
  payload = dict (field (codes "error") (str (codes "Empty task description")) end);
  request_id = request_id;
}

module _ (O : Outside) (F : Format) where
  -- `for step in result.steps: await self.state_db.record_step(task.task_id, step)`
  unfoldable pub record_steps : Text → (StepResult → ℕ) → List StepResult → Db → Db
  record_steps task_id recorded [] db = db
  record_steps task_id recorded (s ∷ ss) db =
      record_steps task_id recorded ss (record_step F.str_value O.dumps task_id s (recorded s) db)

module _ (O : Outside) (F : Format) (sha3 : Text → Text) {L W : Type 0} (C : Controller L W)
    (system_prompt : TaskRequest → Text) (times : Times) where
  -- The handler behind `create_task`: the run, its records, and the reply.
  unfoldable pub run_and_record : Value → TaskRequest → State L W → Db → MessageFrame × State L W
  run_and_record request_id task s db =
      let (result, r) = run_task F sha3 C task (system_prompt task) s.events s.llm_state s.world in
      (
        result_frame O request_id times.elapsed result,
        record s {
          db =
              record_steps O F task.task_id times.recorded result.steps
                (complete_task result times.elapsed times.completed db);
          events = r.events;
          llm_state = r.llm_state;
          world = r.world;
        },
      )

  -- What the database says of the new task.
  unfoldable pub run_created :
      Value
      → TaskRequest
      → State L W
      → Result DbError Db
      → Result Text (Option MessageFrame) × State L W
  run_created request_id task s (err e) = (err (unique_failed e), s)
  run_created request_id task s (ok db) =
      let (frame, s') = run_and_record request_id task s db in (ok (some frame), s')

  unfoldable pub accept :
      Value → Option TaskRequest → State L W → Result Text (Option MessageFrame) × State L W
  accept request_id none s = (err O.unreadable, s)
  accept request_id (some task) s =
      if is_empty task.description
      then (ok (some (empty_description request_id)), s)
      else run_created request_id task s (create_task task times.created s.db)

  unfoldable pub handle_task_request :
      MessageFrame → State L W → Result Text (Option MessageFrame) × State L W
  handle_task_request msg s = accept msg.request_id (task_of O s.config msg.payload) s
