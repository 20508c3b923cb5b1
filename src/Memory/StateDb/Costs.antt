-- ===== src/Memory/StateDb/Costs.antt =====
-- What the table `cost_log` sums up to, for a task and for a user.
use agentic_ai_tee.Base.{
  ℕ, ◌+◌, ◌≡◌, ap, sym, ◌∙◌, List, [], ◌∷◌, if◌then◌else◌, keep, keep-append, sum_by, sum_by-keep,
  sum_by-append, sum_by-ext, sum_by-swap, Text, text_eq, Value, Fields, arith,
}
use agentic_ai_tee.Agent.Models.{StepResult, step_cost}
use agentic_ai_tee.Memory.StateDb.{
  Db, TaskRow, CostRow, record_step, cost_row, get_task_cost, joined_cost, get_user_total_cost,
}

-- The sum over a task's rows of cost_log.
abbrev cost_of : Text → List CostRow → ℕ
cost_of id costs = sum_by (λ c. if text_eq c.task_id id then c.cost_usd else 0) costs

get_task_cost-cost_of : (id : Text) (db : Db) → get_task_cost id db ≡ cost_of id db.cost_log
unfolding get_task_cost
get_task_cost-cost_of id db = sum_by-keep _ _ db.cost_log

-- The costs of a user in a list of rows, by the task.
user_cell :
    (user_id : Text) (t : TaskRow) (costs : List CostRow)
    → sum_by
        (λ c.
          if text_eq c.task_id t.task_id
          then (if text_eq t.user_id user_id then c.cost_usd else 0)
          else 0)
        costs
      ≡ (if text_eq t.user_id user_id then cost_of t.task_id costs else 0)
user_cell user_id t [] = ground arith
user_cell user_id t (c ∷ costs) = ground (arith, user_cell user_id t costs)

-- A user's total is the sum of what get_task_cost gives for each of the user's tasks.
pub get_user_total_cost_lem :
    (user_id : Text) (db : Db)
    → get_user_total_cost user_id db
      ≡ sum_by (λ t. get_task_cost t.task_id db) (keep (λ t. text_eq t.user_id user_id) db.tasks)
unfolding get_user_total_cost joined_cost
get_user_total_cost_lem user_id db =
    sum_by-ext _ _ (λ c. sum_by-keep _ _ db.tasks) db.cost_log
    ∙ (sum_by-swap _ db.cost_log db.tasks
        ∙ (sum_by-ext _ _
              (λ t.
                user_cell user_id t db.cost_log
                ∙ ap (λ n. if text_eq t.user_id user_id then n else 0)
                    (sym (get_task_cost-cost_of t.task_id db)))
              db.tasks
            ∙ sym (sum_by-keep _ _ db.tasks)))

module _ (str_value : Value → Text) (dumps : Fields → Text) where
  pub get_task_cost-record_step :
      (id j : Text) (step : StepResult) (now : ℕ) (db : Db)
      → get_task_cost j (record_step str_value dumps id step now db)
        ≡ get_task_cost j db + (if text_eq id j then step_cost step else 0)
  unfolding get_task_cost record_step cost_row
  get_task_cost-record_step id j step now db =
      ap (sum_by (λ c. c.cost_usd)) (keep-append (λ c. text_eq c.task_id j) db.cost_log _)
      ∙ (sum_by-append _ (keep (λ c. text_eq c.task_id j) db.cost_log) _
          ∙ ap (λ n. get_task_cost j db + n) (ground arith))
