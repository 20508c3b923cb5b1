-- ===== src/Memory/StateDb/Rows.antt =====
-- The rows of the task database: which task a key finds, and what any calls of the methods keep.
use agentic_ai_tee.Base.{
  ℕ, ◌≡◌, refl, ap, ◌∙◌, Option, none, some, List, [], ◌∷◌, ◌++◌, if◌then◌else◌, Text, text_eq,
  text_eq_iff, arith,
}
use mathlib.Core.Option
use agentic_ai_tee.Base.Result.{ok}
use agentic_ai_tee.Agent.Models.{TaskRequest, TaskResult}
use agentic_ai_tee.Memory.StateDb.{
  Db, TaskRow, insert_task, find_task, new_task_row, create_task, completed_row, update_tasks,
  complete_task, get_task,
}

pub find_task-append :
    (ts : List TaskRow) (t : TaskRow) (j : Text)
    → find_task ts t.task_id ≡ none
    → find_task (ts ++ (t ∷ [])) j ≡ (if text_eq t.task_id j then some t else find_task ts j)
unfolding find_task
find_task-append [] t j h = refl
find_task-append (s ∷ ts) t j h = ground (
  arith,
  find_task-append ts t j,
  text_eq_iff s.task_id j,
  text_eq_iff t.task_id j,
  text_eq_iff s.task_id t.task_id,
)

pub find_task-update_tasks :
    (result : TaskResult) (elapsed now : ℕ) (ts : List TaskRow) (j : Text)
    → find_task (update_tasks result elapsed now ts) j ≡ (
        if text_eq result.task_id j
        then Option.map (completed_row result elapsed now) (find_task ts j)
        else find_task ts j)
unfolding find_task update_tasks completed_row
find_task-update_tasks result elapsed now [] j = ground arith
find_task-update_tasks result elapsed now (t ∷ ts) j = ground (
  arith,
  find_task-update_tasks result elapsed now ts j,
  text_eq_iff t.task_id j,
  text_eq_iff result.task_id j,
  text_eq_iff t.task_id result.task_id,
)

pub get_task-complete_task :
    (result : TaskResult) (elapsed now : ℕ) (j : Text) (db : Db)
    → get_task j (complete_task result elapsed now db) ≡ (
        if text_eq result.task_id j
        then Option.map (completed_row result elapsed now) (get_task j db)
        else get_task j db)
unfolding get_task complete_task
get_task-complete_task result elapsed now j db =
    find_task-update_tasks result elapsed now db.tasks j

insert_task_lem :
    (found : Option TaskRow) (row : TaskRow) (db db' : Db)
    → insert_task found row db ≡ ok db'
    → (found ≡ none) × (db' ≡ record db { tasks = db.tasks ++ (row ∷ []) })
unfolding insert_task
insert_task_lem none row db db' h = ground arith
insert_task_lem (some other) row db db' h = absurd (ground arith)

-- A task is created under a new key only, and then this key finds its row and every other key what it
-- found before.
pub create_task_lem :
    (task : TaskRequest) (now : ℕ) (db db' : Db)
    → create_task task now db ≡ ok db'
    → (get_task task.task_id db ≡ none)
      × (db' ≡ record db { tasks = db.tasks ++ (new_task_row task now ∷ []) })
      × ((j : Text)
          → get_task j db'
            ≡ (if text_eq task.task_id j then some (new_task_row task now) else get_task j db))
unfolding create_task get_task new_task_row
create_task_lem task now db db' h =
    let (fresh, grown) = insert_task_lem _ (new_task_row task now) db db' h in
    (
      fresh,
      grown,
      λ j.
          ap (λ d. find_task d.tasks j) grown
          ∙ find_task-append db.tasks (new_task_row task now) j fresh,
    )
