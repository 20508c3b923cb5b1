-- ===== src/Memory/StateDb.antt =====
-- enclave/memory/state_db.py: TaskStateDB. A table is the list of its rows by rowid. A connection runs
-- one statement after the other, so a method is one function; `now` is `time.time()`, and times and
-- costs are as in models.py. The key of the table `tasks` is its task_id, and SQLite does not check
-- foreign keys unless it is told to, which this code does not. The order that ORDER BY gives is a
-- parameter, since SQL leaves equal keys open.
pub mod Rows
pub mod Invariant
pub mod Costs
pub mod Pages
pub mod Tests
use agentic_ai_tee.Base.{
  ℕ, suc, ◌+◌, Bool, true, false, Option, none, some, List, [], ◌∷◌, ◌++◌, map, if◌then◌else◌,
  is_empty, keep, take, drop, length, sum_by, ℤ, pos, negsuc, Text, codes, text_eq, Value, Fields,
  truthy,
}
use agentic_ai_tee.Base.Result.{Result, ok, err}
use agentic_ai_tee.Agent.Models.{StepResult, TaskRequest, TaskResult, ToolOutput, step_cost}

-- A row of `tasks`: `success` is an integer, and what create_task does not set is its default.
pub record TaskRow : Type 0 where
  pub task_id : Text
  pub user_id : Text
  pub description : Text
  pub status : Text
  pub summary : Option Text
  pub success : Option ℕ
  pub total_cost_usd : ℕ
  pub attestation_hash : Option Text
  pub error : Option Text
  pub created_at : ℕ
  pub completed_at : Option ℕ
  pub elapsed_ms : Option ℕ

pub record StepRow : Type 0 where
  pub id : ℕ
  pub task_id : Text
  pub step_number : ℕ
  pub tool_name : Option Text
  pub tool_args : Text
  pub output_success : Option ℕ
  pub output_result : Option Text
  pub output_error : Option Text
  pub llm_response : Text
  pub input_tokens : ℕ
  pub output_tokens : ℕ
  pub latency_ms : ℕ
  pub created_at : ℕ

pub record CostRow : Type 0 where
  pub id : ℕ
  pub task_id : Text
  pub step_number : ℕ
  pub input_tokens : ℕ
  pub output_tokens : ℕ
  pub cost_usd : ℕ
  pub created_at : ℕ

pub record Db : Type 0 where
  pub tasks : List TaskRow
  pub steps : List StepRow
  pub cost_log : List CostRow

unfoldable pub new_db : Db
new_db = record { tasks = []; steps = []; cost_log = [] }

pub data DbError : Type 0 where
  integrity_error : DbError

-- `str` of the exception
unfoldable pub unique_failed : DbError → Text
unique_failed integrity_error = codes "UNIQUE constraint failed: tasks.task_id"

-- The first row with this key, which is the only one.
unfoldable pub find_task : List TaskRow → Text → Option TaskRow
find_task [] id = none
find_task (t ∷ ts) id = if text_eq t.task_id id then some t else find_task ts id

unfoldable pub new_task_row : TaskRequest → ℕ → TaskRow
new_task_row task now = record {
  task_id = task.task_id;
  user_id = task.user_id;
  description = task.description;
  status = codes "running";
  summary = none;
  success = none;
  total_cost_usd = 0;
  attestation_hash = none;
  error = none;
  created_at = now;
  completed_at = none;
  elapsed_ms = none;
}

-- The INSERT, by the row that has the key.
unfoldable pub insert_task : Option TaskRow → TaskRow → Db → Result DbError Db
insert_task (some other) row db = err integrity_error
insert_task none row db = ok (record db { tasks = db.tasks ++ (row ∷ []) })

unfoldable pub create_task : TaskRequest → ℕ → Db → Result DbError Db
create_task task now db = insert_task (find_task db.tasks task.task_id) (new_task_row task now) db

-- what the UPDATE sets
unfoldable pub completed_row : TaskResult → ℕ → ℕ → TaskRow → TaskRow
completed_row result elapsed now row = record row {
  status = if result.success then codes "completed" else codes "failed";
  success = some (if result.success then 1 else 0);
  summary = some result.summary;
  total_cost_usd = result.total_cost_usd;
  attestation_hash = some result.attestation_hash;
  error = result.error;
  completed_at = some now;
  elapsed_ms = some elapsed;
}

-- UPDATE … WHERE task_id = ?
unfoldable pub update_tasks : TaskResult → ℕ → ℕ → List TaskRow → List TaskRow
update_tasks result elapsed now [] = []
update_tasks result elapsed now (t ∷ ts) =
    (if text_eq t.task_id result.task_id then completed_row result elapsed now t else t)
    ∷ update_tasks result elapsed now ts

-- The time that a task took stands in its result.
unfoldable pub complete_task : TaskResult → ℕ → ℕ → Db → Db
complete_task result elapsed now db = record db { tasks = update_tasks result elapsed now db.tasks }

abbrev pub flag : Bool → ℕ
flag b = if b then 1 else 0

-- `str` of a value and `json.dumps` of the arguments
module _ (str_value : Value → Text) (dumps : Fields → Text) where
  -- `str(step.output.result) if step.output and step.output.result else None`
  unfoldable pub output_text : Option ToolOutput → Option Text
  output_text none = none
  output_text (some o) = if truthy o.result then some (str_value o.result) else none

  -- AUTOINCREMENT counts on, and no row is ever deleted.
  unfoldable pub step_row : ℕ → Text → StepResult → ℕ → StepRow
  step_row id task_id step now = record {
    id = id;
    task_id = task_id;
    step_number = step.step_number;
    tool_name = step.tool_name;
    tool_args = dumps step.tool_args;
    output_success = elim step.output [ none ↦ none | some o ↦ some (flag o.success) ];
    output_result = output_text step.output;
    output_error = elim step.output [ none ↦ none | some o ↦ o.error ];
    llm_response = step.llm_response;
    input_tokens = step.input_tokens;
    output_tokens = step.output_tokens;
    latency_ms = step.latency_ms;
    created_at = now;
  }

  unfoldable pub cost_row : ℕ → Text → StepResult → ℕ → CostRow
  cost_row id task_id step now = record {
    id = id;
    task_id = task_id;
    step_number = step.step_number;
    input_tokens = step.input_tokens;
    output_tokens = step.output_tokens;
    cost_usd = step_cost step;
    created_at = now;
  }

  unfoldable pub record_step : Text → StepResult → ℕ → Db → Db
  record_step task_id step now db = record db {
    steps = db.steps ++ (step_row (suc (length db.steps)) task_id step now ∷ []);
    cost_log = db.cost_log ++ (cost_row (suc (length db.cost_log)) task_id step now ∷ []);
  }

unfoldable pub get_task : Text → Db → Option TaskRow
get_task id db = find_task db.tasks id

-- LIMIT and OFFSET: a negative limit is none, a negative offset is 0.
unfoldable pub limited : ℤ → List TaskRow → List TaskRow
limited (pos n) rows = take n rows
limited (negsuc n) rows = rows

unfoldable pub skipped : ℤ → List TaskRow → List TaskRow
skipped (pos n) rows = drop n rows
skipped (negsuc n) rows = rows

-- WHERE user_id = ?, if there is a user and its name is not empty
unfoldable pub of_user : Option Text → List TaskRow → List TaskRow
of_user none rows = rows
of_user (some user_id) rows =
    if is_empty user_id then rows else keep (λ t. text_eq t.user_id user_id) rows

-- `by_created_at` is ORDER BY created_at DESC.
unfoldable pub list_tasks : (List TaskRow → List TaskRow) → Option Text → ℤ → ℤ → Db → List TaskRow
list_tasks by_created_at user_id limit offset db =
    limited limit (skipped offset (by_created_at (of_user user_id db.tasks)))

-- SUM, where NULL and 0 give 0.0
unfoldable pub get_task_cost : Text → Db → ℕ
get_task_cost id db = sum_by (λ c. c.cost_usd) (keep (λ c. text_eq c.task_id id) db.cost_log)

-- The join: for each row of cost_log the tasks with its task_id and the user.
unfoldable pub joined_cost : Text → List TaskRow → CostRow → ℕ
joined_cost user_id tasks c =
    sum_by (λ t. if text_eq t.user_id user_id then c.cost_usd else 0)
      (keep (λ t. text_eq c.task_id t.task_id) tasks)

unfoldable pub get_user_total_cost : Text → Db → ℕ
get_user_total_cost user_id db = sum_by (joined_cost user_id db.tasks) db.cost_log
