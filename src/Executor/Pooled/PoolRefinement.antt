-- ===== src/Executor/Pooled/PoolRefinement.antt =====
-- thread_pool.cpp: the pool of the executor makes the steps of a pool, and the executor on it those of
-- the executor with a queue of tasks.
use tiny_reactor.Base.{
  ℕ, ◌≡◌, ◌≤◌, refl, sym, ap, ◌∙◌, Bool, true, ◌⊎◌, Option, some, List, [], ◌∷◌, ltb, ◌==◌, tally,
  arith, Bool-cases, inl, inr,
}
use tiny_reactor.Executor
use tiny_reactor.Executor.{
  TaskExecutor, Timer, TimerKind, exec_timer, retry_timer, fires, take_expired,
}
use tiny_reactor.Executor.Invariant
use tiny_reactor.Executor.Invariant.{IsIdle}
use tiny_reactor.Executor.Pooled.{
  Pooled, Event, calls, works, resubmit, steps, acts, is_busy, pool_step, enqueue_step, run_handler,
  act, step, run,
}
use tiny_reactor.Executor.Pooled.Effects.{load}
use tiny_reactor.Executor.Pooled.PoolMoves.{brings, carried}
use tiny_reactor.Executor.Pooled.Coherent.{Coherent}
use tiny_reactor.Executor.Pooled.Kept.{run-Coherent}
use tiny_reactor.Executor.Pooled.Refinement.{AreAllowed, run-Took}
use tiny_reactor.ThreadPool
use tiny_reactor.ThreadPool.{
  Worker, starting, pops, executes, Client, idle, pushes, make_pool, worker_step,
}

-- The pool makes one of its steps or none.
abbrev Stepped : ThreadPool.ThreadPool → ThreadPool.ThreadPool → Type 0
Stepped d e = (e ≡ d) ⊎ ((p : ThreadPool.Event) × (e ≡ ThreadPool.step p d))

module _ (le : ℕ → ℕ → Bool) (s : Pooled) where
  served :
      (acquired : Bool) (i : ℕ)
      → ltb i s.pool.threads ≡ true
      → (w : Worker) → s.pool.workers i ≡ w
      → worker_step acquired i w s.pool ≡ ThreadPool.step (ThreadPool.works acquired i) s.pool
  unfolding ThreadPool.step
  served acquired i known w at = rw known (ap (λ x. worker_step acquired i x s.pool) (sym at))

  pool_step-Stepped :
      (acquired : Bool) (i : ℕ)
      → ltb i s.pool.threads ≡ true
      → (w : Worker) → s.pool.workers i ≡ w
      → Stepped s.pool (pool_step le acquired i w s).pool
  unfolding pool_step ThreadPool.step
  pool_step-Stepped acquired i known pops at =
      inr (ThreadPool.works acquired i, served acquired i known pops at)
  pool_step-Stepped acquired i known (executes k) at = elim (Bool-cases (is_busy k s)) [
    | inl busy ↦ rw busy (inl refl)
    | inr free ↦
        rw free (inr (ThreadPool.works acquired i, served acquired i known (executes k) at))
  ]
  pool_step-Stepped acquired i known w at =
      inr (ThreadPool.works acquired i, served acquired i known w at)

  enqueue_step-Stepped :
      (pushed : Bool) (c : ℕ) (w : Client)
      → s.pool.clients c ≡ w
      → Stepped s.pool (enqueue_step le pushed c w s).pool
  unfolding enqueue_step ThreadPool.step
  enqueue_step-Stepped true c (pushes k) at =
      inr (ThreadPool.steps true c, ap (λ x. ThreadPool.client_step true c x s.pool) (sym at))
  enqueue_step-Stepped pushed c w at =
      inr (ThreadPool.steps pushed c, ap (λ x. ThreadPool.client_step pushed c x s.pool) (sym at))

  resubmit-Stepped : (t : Timer) (kind : TimerKind) → Stepped s.pool (resubmit t kind s.pool)
  unfolding resubmit
  resubmit-Stepped t exec_timer = inl refl
  resubmit-Stepped t retry_timer = inr (ThreadPool.enqueues 0 t.task, refl)

  run_handler-Stepped :
      (i : ℕ) (c : Client) (o : Option (Timer × List Timer))
      → Stepped s.pool (run_handler le i c o s).pool
  unfolding run_handler
  run_handler-Stepped i idle (some (t, rest)) = resubmit-Stepped t t.kind
  run_handler-Stepped i c o = inl refl

  act-Stepped : (v : Executor.Event) → Stepped s.pool (act le v s).pool
  unfolding act
  act-Stepped (fires i) =
      run_handler-Stepped i (s.pool.clients 0) (take_expired i s.executor.timers)
  act-Stepped v = inl refl

  step-Stepped : (v : Event) → Stepped s.pool (step le v s).pool
  unfolding step
  step-Stepped (calls c k) = elim (Bool-cases (c == 0)) [
    | inl io ↦ rw io (inl refl)
    | inr other ↦ rw other (inr (ThreadPool.enqueues c k, refl))
  ]
  step-Stepped (works acquired i) = elim (Bool-cases (ltb i s.pool.threads)) [
    | inl known ↦ rw known (pool_step-Stepped acquired i known (s.pool.workers i) refl)
    | inr unknown ↦ rw unknown (inl refl)
  ]
  step-Stepped (steps pushed c) = enqueue_step-Stepped pushed c (s.pool.clients c) refl
  step-Stepped (acts v) = act-Stepped v

run-Stepped :
    (le : ℕ → ℕ → Bool) (vs : List Event) (s : Pooled)
    → (ps : List ThreadPool.Event) × ((run le vs s).pool ≡ ThreadPool.run ps s.pool)
unfolding run ThreadPool.run
run-Stepped le [] s = ([], refl)
run-Stepped le (v ∷ vs) s =
    let (ps, same) = run-Stepped le vs (step le v s) in
    elim (step-Stepped le s v) [
      | inl stays ↦ (ps, same ∙ ap (ThreadPool.run ps) stays)
      | inr (p, moves) ↦ (p ∷ ps, same ∙ ap (ThreadPool.run ps) moves)
    ]

-- An executor that has no work yet, on a new pool.
abbrev pub on_pool : ℕ → TaskExecutor → Pooled
on_pool n e = record { executor = e; pool = make_pool n }

pub on_pool-Coherent : (n : ℕ) (e : TaskExecutor) → IsIdle e → Coherent n (on_pool n e)
unfolding brings make_pool tally
on_pool-Coherent n e h = record {
  threads = refl;
  open_pool = refl;
  same_queue = h.queue;
  worked = λ k. rw (h.running, h.refused) (omega arith);
  handled = λ k. rw h.resubmitting refl;
}

-- An executor that has no work yet is put on a new pool of `n` threads, and the steps of the pool's
-- threads, of the threads that call `execute_task`, of the timers and of the task functions
-- interleave, each task being submitted only while it is in no place of the executor. What the
-- executor does is then a history of the executor with a queue of tasks in which each submission is
-- allowed, what the pool does is a history of a thread pool, the queue is the same in both, and every
-- task that the executor runs is run by as many of the pool's workers at least.
pub run-implemented :
    (le : ℕ → ℕ → Bool) (n : ℕ) (vs : List Event) (e : TaskExecutor)
    → IsIdle e
    → AreAllowed le vs (on_pool n e)
    → let s = run le vs (on_pool n e) in
      ((es : List Executor.Event) × (s.executor ≡ Executor.run le es e)
        × Invariant.AreAllowed le es e)
      × ((ps : List ThreadPool.Event) × (s.pool ≡ ThreadPool.run ps (make_pool n)))
      × (s.executor.queue ≡ s.pool.queue)
      × ((k : ℕ) → load k s.executor ≤ carried n k s.pool)
run-implemented le n vs e h allowed =
    let c = run-Coherent le vs (on_pool n e) (on_pool-Coherent n e h) in
    (run-Took le vs (on_pool n e) allowed, run-Stepped le vs (on_pool n e), c.same_queue, c.worked)
