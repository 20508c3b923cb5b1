-- ===== src/Agent/Controller/Gather.antt =====
-- `asyncio.gather` over jobs that interleave: a schedule names, for each move, the job that makes it,
-- and what a schedule leaves undone is done in order.
pub mod Laws
use agentic_ai_tee.Base.{ℕ, zero, suc, List, [], ◌∷◌}
use agentic_ai_tee.Base.Coroutine.{Coroutine, return, ◌>>=◌}
use agentic_ai_tee.Agent.Models.{Stop}

-- A job makes a move at a time, and is settled by all the moves that it has left.
module _ {W J O : Type 0} (move : J → Coroutine Stop W J) (settle : J → Coroutine Stop W O) where
  -- The move of the job at a place; a place past the end is no job's.
  unfoldable pub move_at : ℕ → List J → Coroutine Stop W (List J)
  move_at i [] = return []
  move_at zero (job ∷ jobs) = do job' ← move job; return (job' ∷ jobs)
  move_at (suc i) (job ∷ jobs) = do jobs' ← move_at i jobs; return (job ∷ jobs')

  unfoldable pub run_schedule : List ℕ → List J → Coroutine Stop W (List J)
  run_schedule [] jobs = return jobs
  run_schedule (i ∷ schedule) jobs = do jobs' ← move_at i jobs; run_schedule schedule jobs'

  unfoldable pub settle_all : List J → Coroutine Stop W (List O)
  settle_all [] = return []
  settle_all (job ∷ jobs) = do
    output ← settle job
    outputs ← settle_all jobs
    return (output ∷ outputs)

  -- `asyncio.gather` over jobs, which returns the outputs in the order of the jobs, or stops with
  -- the first that stops.
  unfoldable pub run_jobs : List ℕ → List J → Coroutine Stop W (List O)
  run_jobs schedule jobs = do jobs' ← run_schedule schedule jobs; settle_all jobs'
