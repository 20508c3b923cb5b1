-- ===== src/Memory/StateDb/Invariant.antt =====
-- What any calls of the methods of the task database keep.
use agentic_ai_tee.Base.{
  ℕ, suc, ◌+◌, ◌≡◌, refl, inl, inr, true, Bool-cases, none, some, List, [], ◌∷◌, ◌++◌, All,
  All-append, length, Text, codes, text_eq, text_eq_iff, is_some, Value, Fields, arith,
}
use agentic_ai_tee.Base.Result.{Result, ok, err}
use agentic_ai_tee.Agent.Models.{StepResult, TaskRequest, TaskResult, micro_usd}
use agentic_ai_tee.Memory.StateDb.{
  Db, DbError, TaskRow, StepRow, CostRow, new_db, find_task, new_task_row, create_task,
  completed_row, update_tasks, complete_task, step_row, cost_row, record_step, get_task,
}
use agentic_ai_tee.Memory.StateDb.Rows.{create_task_lem, find_task-append, find_task-update_tasks}

-- Every key once.
abbrev pub NodupIds : List TaskRow → Type 0
NodupIds [] = Unit
NodupIds (t ∷ ts) = (find_task ts t.task_id ≡ none) × NodupIds ts

-- A task runs, and has no result, or it is completed or failed, and has one.
pub data IsSettled (t : TaskRow) : Type 0 where
  runs : t.status ≡ codes "running" → t.success ≡ none → t.completed_at ≡ none → IsSettled t
  completed :
      t.status ≡ codes "completed"
      → t.success ≡ some 1
      → is_some t.completed_at ≡ true
      → IsSettled t
  failed :
      t.status ≡ codes "failed" → t.success ≡ some 0 → is_some t.completed_at ≡ true → IsSettled t

-- The rows of `steps` and `cost_log` go together, are numbered from `n` on, and the cost is that of
-- the tokens.
abbrev pub Costed : ℕ → List StepRow → List CostRow → Type 0
Costed n [] [] = Unit
Costed n (s ∷ ss) (c ∷ cs) =
    ((s.id ≡ n)
      × (c.id ≡ n)
      × (c.task_id ≡ s.task_id)
      × (c.step_number ≡ s.step_number)
      × (c.cost_usd ≡ micro_usd s.input_tokens s.output_tokens))
    × Costed (suc n) ss cs
Costed n _ _ = ⊥

pub record IsConsistent (db : Db) : Type 0 where
  pub unique : NodupIds db.tasks
  pub settled : All IsSettled db.tasks
  pub costed : Costed 1 db.steps db.cost_log

-- A call of a method that writes; a call of create_task that raises changes nothing.
pub data Write : Type 0 where
  create : TaskRequest → ℕ → Write
  complete : TaskResult → ℕ → ℕ → Write
  step : Text → StepResult → ℕ → Write

abbrev pub or_keep : Db → Result DbError Db → Db
or_keep db (ok db') = db'
or_keep db (err e) = db

module _ (str_value : Value → Text) (dumps : Fields → Text) where
  unfoldable pub write : Write → Db → Db
  write (create task now) db = or_keep db (create_task task now db)
  write (complete result elapsed now) db = complete_task result elapsed now db
  write (step task_id result now) db = record_step str_value dumps task_id result now db

  unfoldable pub write_all : List Write → Db → Db
  write_all [] db = db
  write_all (w ∷ ws) db = write_all ws (write w db)

-- Appending to the tables.
NodupIds-append :
    (ts : List TaskRow) (t : TaskRow)
    → find_task ts t.task_id ≡ none
    → NodupIds ts
    → NodupIds (ts ++ (t ∷ []))
unfolding find_task
NodupIds-append [] t h nodup = (refl, tt)
NodupIds-append (s ∷ ts) t h nodup = ground (
  arith,
  NodupIds-append ts t,
  find_task-append ts t s.task_id,
  text_eq_iff s.task_id t.task_id,
  text_eq_iff t.task_id s.task_id,
)

NodupIds-update_tasks :
    (result : TaskResult) (elapsed now : ℕ) (ts : List TaskRow)
    → NodupIds ts
    → NodupIds (update_tasks result elapsed now ts)
unfolding find_task update_tasks completed_row
NodupIds-update_tasks result elapsed now [] nodup = tt
NodupIds-update_tasks result elapsed now (t ∷ ts) nodup = ground (
  arith,
  NodupIds-update_tasks result elapsed now ts nodup.1,
  find_task-update_tasks result elapsed now ts t.task_id,
)

completed_row-IsSettled :
    (result : TaskResult) (elapsed now : ℕ) (t : TaskRow)
    → IsSettled (completed_row result elapsed now t)
unfolding completed_row
completed_row-IsSettled result elapsed now t = elim (Bool-cases result.success) [
  | inl succeeded ↦ completed (ground arith) (ground arith) refl
  | inr not_so ↦ failed (ground arith) (ground arith) refl
]

update_tasks-IsSettled :
    (result : TaskResult) (elapsed now : ℕ) (ts : List TaskRow)
    → All IsSettled ts
    → All IsSettled (update_tasks result elapsed now ts)
unfolding update_tasks
update_tasks-IsSettled result elapsed now [] h = tt
update_tasks-IsSettled result elapsed now (t ∷ ts) h = (
  elim (Bool-cases (text_eq t.task_id result.task_id)) [
    | inl hit ↦ rw hit (completed_row-IsSettled result elapsed now t)
    | inr miss ↦ rw miss (h.0)
  ],
  update_tasks-IsSettled result elapsed now ts h.1,
)

module _ (str_value : Value → Text) (dumps : Fields → Text) where
  Costed-append :
      (n k j : ℕ) (ss : List StepRow) (cs : List CostRow) (task_id : Text) (r : StepResult)
      (now : ℕ)
      → Costed n ss cs
      → k ≡ n + length ss
      → j ≡ n + length cs
      → Costed n
          (ss ++ (step_row str_value dumps k task_id r now ∷ []))
          (cs ++ (cost_row str_value dumps j task_id r now ∷ []))
  unfolding step_row cost_row
  Costed-append n k j [] [] task_id r now h hk hj =
      ((omega arith, omega arith, refl, refl, refl), tt)
  Costed-append n k j [] (c ∷ cs) task_id r now h hk hj = absurd h
  Costed-append n k j (s ∷ ss) [] task_id r now h hk hj = absurd h
  Costed-append n k j (s ∷ ss) (c ∷ cs) task_id r now h hk hj =
      (h.0, Costed-append (suc n) k j ss cs task_id r now h.1 (omega arith) (omega arith))

  create_task-IsConsistent :
      (task : TaskRequest) (now : ℕ) (db : Db) (result : Result DbError Db)
      → create_task task now db ≡ result
      → IsConsistent db
      → IsConsistent (or_keep db result)
  unfolding new_task_row get_task
  create_task-IsConsistent task now db (err e) h inv = inv
  create_task-IsConsistent task now db (ok db') h inv =
      let (fresh, grown, found) = create_task_lem task now db db' h in
      rw grown (record {
        unique = NodupIds-append db.tasks (new_task_row task now) fresh inv.unique;
        settled = All-append IsSettled db.tasks _ inv.settled (runs refl refl refl, tt);
        costed = inv.costed;
      })

  write-IsConsistent :
      (w : Write) (db : Db) → IsConsistent db → IsConsistent (write str_value dumps w db)
  unfolding write complete_task record_step
  write-IsConsistent (create task now) db inv = create_task-IsConsistent task now db _ refl inv
  write-IsConsistent (complete result elapsed now) db inv = record {
    unique = NodupIds-update_tasks result elapsed now db.tasks inv.unique;
    settled = update_tasks-IsSettled result elapsed now db.tasks inv.settled;
    costed = inv.costed;
  }
  write-IsConsistent (step task_id r now) db inv = record {
    unique = inv.unique;
    settled = inv.settled;
    costed =
        Costed-append 1 _ _ db.steps db.cost_log task_id r now inv.costed (omega arith)
          (omega arith);
  }

  -- Whatever calls of the writing methods a new database has seen, each task has one row, a row has no
  -- result while its status is `running` and has one when it is `completed` or `failed`, and the steps
  -- and the costs go together row for row, numbered from 1 on, each cost that of the step's tokens.
  pub write_all-IsConsistent :
      (ws : List Write) → IsConsistent (write_all str_value dumps ws new_db)
  unfolding write_all new_db
  write_all-IsConsistent ws = go ws new_db (record { unique = tt; settled = tt; costed = tt })
    where
      go :
          (ws : List Write) (db : Db)
          → IsConsistent db
          → IsConsistent (write_all str_value dumps ws db)
      go [] db inv = inv
      go (w ∷ ws) db inv = go ws (write str_value dumps w db) (write-IsConsistent w db inv)
