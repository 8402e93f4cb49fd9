-- ===== src/Executor/Pooled.antt =====
-- src/worker/task-executor/src/task_executor.cpp with src/common/src/thread_pool.cpp: the executor on
-- its thread pool. The steps of the pool's threads, of the threads that call `execute_task` and of
-- the one thread that runs the io_context interleave. That thread is the client 0 of the pool. The
-- executor stops its pool only when it is destroyed, and adds and removes no threads.
pub mod Effects
pub mod Endings
pub mod PoolMoves
pub mod Coherent
pub mod Kept
pub mod Refinement
pub mod PoolRefinement
pub mod Threads
mod Tests
use tiny_reactor.Base.{
  ℕ, zero, suc, ◌+◌, Bool, true, false, Option, none, some, List, [], ◌∷◌, leb, total, tally, ltb,
  ◌==◌, if◌then◌else◌,
}
use tiny_reactor.Executor
use tiny_reactor.Executor.{
  TaskExecutor, Timer, TimerKind, exec_timer, retry_timer, submits, begins, ends, gives_back,
  resubmits, expires, fires, passes, take_expired,
}
use tiny_reactor.ThreadPool
use tiny_reactor.ThreadPool.Measures.{carries}
use tiny_reactor.ThreadPool.{
  ThreadPool, Worker, pops, executes, Client, idle, pushes, worker_step, client_step, enqueues,
}

pub record Pooled : Type 0 where
  pub executor : TaskExecutor
  pub pool : ThreadPool

-- A thread calls `execute_task`, a worker or a client makes a step in the pool, or something happens
-- in the executor.
pub data Event : Type 0 where
  calls : (c k : ℕ) → Event
  works : (acquired : Bool) → (i : ℕ) → Event
  steps : (pushed : Bool) → (c : ℕ) → Event
  acts : Executor.Event → Event

-- Whether each worker that took a task is between the call of its function and the return of
-- `run_task`. The runs of one task have the same effect, so that it does not matter whose ended.
unfoldable pub is_busy : ℕ → Pooled → Bool
is_busy k s =
    leb (total (carries k) s.pool.threads s.pool.workers)
      (tally (λ (r : ℕ × ℕ). r.0 == k) s.executor.running + tally (λ j. j == k) s.executor.refused)

-- The handler of a retry calls `execute_task`.
unfoldable pub resubmit : Timer → TimerKind → ThreadPool → ThreadPool
resubmit t exec_timer p = p
resubmit t retry_timer p = ThreadPool.step (enqueues 0 t.task) p

module _ (le : ℕ → ℕ → Bool) where
  -- The pool's thread calls `run_task` when it has taken a task off the queue, and goes on when its own
  -- call returns.
  unfoldable pub pool_step : (acquired : Bool) → ℕ → Worker → Pooled → Pooled
  unfolding is_busy
  pool_step acquired i pops s = record {
    executor = Executor.step le begins s.executor;
    pool = worker_step acquired i pops s.pool;
  }
  pool_step acquired i (executes k) s =
      if is_busy k s then s else record s { pool = worker_step acquired i (executes k) s.pool }
  pool_step acquired i w s = record s { pool = worker_step acquired i w s.pool }

  -- A thread in `execute_task`: the task is submitted when the queue takes it.
  unfoldable pub enqueue_step : (pushed : Bool) → ℕ → Client → Pooled → Pooled
  enqueue_step true c (pushes k) s = record {
    executor = Executor.step le (if c == 0 then resubmits k else submits k) s.executor;
    pool = client_step true c (pushes k) s.pool;
  }
  enqueue_step pushed c w s = record s { pool = client_step pushed c w s.pool }

  -- The io thread runs a handler if it is in none.
  unfoldable pub run_handler : ℕ → Client → Option (Timer × List Timer) → Pooled → Pooled
  unfolding resubmit
  run_handler i idle (some (t, rest)) s = record {
    executor = Executor.step le (fires i) s.executor;
    pool = resubmit t t.kind s.pool;
  }
  run_handler i _ _ s = s

  unfoldable pub act : Executor.Event → Pooled → Pooled
  unfolding run_handler
  act (ends k flags) s = record s { executor = Executor.step le (ends k flags) s.executor }
  act (gives_back k) s = record s { executor = Executor.step le (gives_back k) s.executor }
  act (expires i) s = record s { executor = Executor.step le (expires i) s.executor }
  act (passes n) s = record s { executor = Executor.step le (passes n) s.executor }
  act (fires i) s = run_handler i (s.pool.clients 0) (take_expired i s.executor.timers) s
  act _ s = s

  unfoldable pub step : Event → Pooled → Pooled
  unfolding pool_step enqueue_step act
  step (calls c k) s =
      if c == 0 then s else record s { pool = ThreadPool.step (enqueues c k) s.pool }
  step (works acquired i) s =
      if ltb i s.pool.threads then pool_step acquired i (s.pool.workers i) s else s
  step (steps pushed c) s = enqueue_step pushed c (s.pool.clients c) s
  step (acts v) s = act v s

  unfoldable pub run : List Event → Pooled → Pooled
  unfolding step
  run [] s = s
  run (v ∷ vs) s = run vs (step v s)
