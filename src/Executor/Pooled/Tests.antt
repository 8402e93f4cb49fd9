-- ===== src/Executor/Pooled/Tests.antt =====
-- task_executor.cpp with thread_pool.cpp: runs at concrete inputs.
use tiny_reactor.Base.{ℕ, ◌+◌, ◌≡◌, ◌≤◌, refl, true, List, [], ◌∷◌, leb, length, total, tally}
use tiny_reactor.Executor
use tiny_reactor.Executor.{get_current_timestamp_ms, ends, expires, fires}
use tiny_reactor.Executor.Invariant
use tiny_reactor.Executor.Tests.{idle as new_executor, idle-IsIdle, quiet_flags}
use tiny_reactor.Executor.Pooled.{Pooled, Event, calls, works, steps, acts, step, run}
use tiny_reactor.Executor.Pooled.Effects.{load}
use tiny_reactor.Executor.Pooled.PoolMoves.{carried}
use tiny_reactor.Executor.Pooled.Refinement.{AreAllowed, submitted}
use tiny_reactor.Executor.Pooled.PoolRefinement.{on_pool, run-implemented}
use tiny_reactor.Executor.Pooled.Threads.{run-running_le}
use tiny_reactor.ThreadPool
use tiny_reactor.ThreadPool.Measures.{carries}
use tiny_reactor.ThreadPool.{executes, compares, pushes, make_pool}

-- The thread 1 submits task 7, and the worker 1 takes it. It waits for the function until that
-- throws; then it goes on, and the timer of the retry rings.
abbrev history : List Event
history =
    calls 1 7
    ∷ steps true 1
    ∷ steps true 1
    ∷ works true 1
    ∷ works true 1
    ∷ steps true 1
    ∷ steps true 1
    ∷ works true 1
    ∷ works true 1
    ∷ works true 1
    ∷ []

abbrev retried : List Event
retried =
    acts (ends 7 quiet_flags)
    ∷ works true 1
    ∷ works true 1
    ∷ acts (expires 2)
    ∷ acts (fires 2)
    ∷ steps true 0
    ∷ []

abbrev busy : Pooled
busy = run leb history (on_pool 2 new_executor)

busy-run :
    (busy.executor.running ≡ (7, 1) ∷ [])
    × (busy.pool.workers 1 ≡ executes 7)
    × (busy.executor.queue ≡ [])
unfolding run make_pool get_current_timestamp_ms ThreadPool.step Executor.step total carries tally
busy-run = (refl, refl, refl)

-- The io thread pushes the task again.
retried-run :
    let s = run leb retried busy in
    (s.executor.running ≡ [])
    × (s.executor.resubmitting ≡ 7 ∷ [])
    × (s.pool.workers 1 ≡ compares)
    × (s.pool.clients 0 ≡ pushes 7)
unfolding run make_pool get_current_timestamp_ms ThreadPool.step Executor.step total carries tally
retried-run = (refl, refl, refl, refl)

history-AreAllowed : AreAllowed leb history (on_pool 2 new_executor)
unfolding tally submitted step make_pool get_current_timestamp_ms ThreadPool.step Executor.step
    total carries
history-AreAllowed =
    (tt, (λ k h. refl, (λ k h. refl, (tt, (tt, (λ k h. cc, (λ k h. cc, (tt, (tt, (tt, tt))))))))))

run-implemented_example :
    ((es : List Executor.Event) × (busy.executor ≡ Executor.run leb es new_executor)
      × Invariant.AreAllowed leb es new_executor)
    × ((ps : List ThreadPool.Event) × (busy.pool ≡ ThreadPool.run ps (make_pool 2)))
    × (busy.executor.queue ≡ busy.pool.queue)
    × ((k : ℕ) → load k busy.executor ≤ carried 2 k busy.pool)
run-implemented_example = run-implemented leb 2 history new_executor idle-IsIdle history-AreAllowed

run-running_le_example : length busy.executor.running + length busy.executor.refused ≤ 2
run-running_le_example = run-running_le leb 2 history new_executor idle-IsIdle
