-- ===== src/Memory/StateDb/Tests.antt =====
-- A database with two tasks of one user and one of another.
use agentic_ai_tee.Base.{
  ◌≡◌, refl, true, none, List, [], ◌∷◌, keep, sum_by, Text, codes, text_eq, Value, Fields, end,
}
use agentic_ai_tee.Base.Sorting.{sort_desc, by_key}
use agentic_ai_tee.Agent.Models.{StepResult, TaskRequest, TaskResult}
use agentic_ai_tee.Memory.StateDb.{
  Db, TaskRow, new_db, find_task, insert_task, new_task_row, create_task, completed_row,
  update_tasks, complete_task, record_step, step_row, cost_row, get_task_cost, joined_cost,
  get_user_total_cost,
}
use agentic_ai_tee.Memory.StateDb.Invariant.{
  Write, create, complete, step, write, write_all, IsConsistent, write_all-IsConsistent,
}
use agentic_ai_tee.Memory.StateDb.Costs.{get_user_total_cost_lem}

abbrev request : Text → Text → TaskRequest
request task_id user_id = record {
  description = codes "Sort.";
  task_id = task_id;
  user_id = user_id;
  budget_usd = 0;
  max_steps = 0;
  timeout_ms = 0;
  tool_allowlist = none;
  domain_allowlist = none;
}

abbrev one_step : StepResult
one_step = record {
  step_number = 1;
  tool_name = none;
  tool_args = end;
  output = none;
  llm_response = codes "Done.";
  input_tokens = 100;
  output_tokens = 20;
  latency_ms = 5;
}

abbrev result : Text → TaskResult
result task_id = record {
  task_id = task_id;
  success = true;
  summary = codes "Done.";
  steps = one_step ∷ [];
  total_cost_usd = 600;
  attestation_hash = codes "h";
  error = none;
}

abbrev written : List Write
written =
    create (request (codes "a") (codes "u")) 10
    ∷ create (request (codes "b") (codes "u")) 20
    ∷ create (request (codes "c") (codes "v")) 30
    ∷ create (request (codes "a") (codes "v")) 40
    ∷ complete (result (codes "a")) 7 50
    ∷ step (codes "a") one_step 51
    ∷ step (codes "b") one_step 52
    ∷ step (codes "b") one_step 53
    ∷ step (codes "c") one_step 54
    ∷ []

abbrev show : Value → Text
show v = codes "v"

abbrev dumps : Fields → Text
dumps d = codes "{}"

abbrev db : Db
db = write_all show dumps written new_db

write_all-IsConsistent_example : IsConsistent (write_all show dumps written new_db)
write_all-IsConsistent_example = write_all-IsConsistent show dumps written

get_user_total_cost_lem_example :
    get_user_total_cost (codes "u") db
    ≡ sum_by (λ t. get_task_cost t.task_id db) (keep (λ t. text_eq t.user_id (codes "u")) db.tasks)
get_user_total_cost_lem_example = get_user_total_cost_lem (codes "u") db

-- three steps at 600 millionths
total : get_user_total_cost (codes "u") db ≡ 1800
unfolding get_user_total_cost joined_cost write_all write new_db create_task insert_task find_task
    new_task_row complete_task update_tasks completed_row record_step step_row cost_row text_eq
total = refl

abbrev latest_first : List TaskRow → List TaskRow
latest_first = sort_desc (by_key (λ t. t.created_at))
