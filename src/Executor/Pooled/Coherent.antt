-- ===== src/Executor/Pooled/Coherent.antt =====
-- The executor on its thread pool: what the two have in common between any two steps.
use tiny_reactor.Base.{
  ℕ, ◌≡◌, ◌≤◌, ◌<◌, refl, sym, subst, ◌∙◌, Bool, false, Option, some, List, [], ◌∷◌, arith,
  Bool-cases, inl, inr,
}
use tiny_reactor.Executor
use tiny_reactor.Executor.{
  TaskExecutor, Timer, TimerKind, exec_timer, retry_timer, submits, begins, ends, gives_back,
  resubmits, expires, fires, passes, take_expired,
}
use tiny_reactor.Executor.Counts.{returning}
use tiny_reactor.Executor.Pooled.{Pooled, is_busy, pool_step, resubmit, run_handler, act}
use tiny_reactor.Executor.Pooled.Effects.{
  load, none_of, Effect, begins-Effect, begins-nothing, expires-Quiet, passes-Quiet, again,
  fires-Effect,
}
use tiny_reactor.Executor.Pooled.Endings.{ends-Quiet, gives_back-Quiet}
use tiny_reactor.Executor.Pooled.PoolMoves.{
  brings, carried, Still, worker_step-Still, pops-carried, returns-carried, pops-Still,
}
use tiny_reactor.ThreadPool
use tiny_reactor.ThreadPool.{
  ThreadPool, Worker, starting, loops, waits, pops, executes, uncounts, compares, claims, exchanges,
  swaps, naps, leaves, exited, Client, idle, refused, checks, pushes, rechecks, counts, releases,
  loads, stores, worker_step, pop_task, client_step, begin_call, enqueues, become, compares,
}
use tiny_reactor.ThreadPool.Measures.{carries}

-- The pool of `n` threads runs, its queue is the executor's, every task that is being run has a
-- worker, and the io thread brings the task that it submits again.
pub record Coherent (n : ℕ) (s : Pooled) : Type 0 where
  pub threads : s.pool.threads ≡ n
  pub open_pool : s.pool.stop ≡ false
  pub same_queue : s.executor.queue ≡ s.pool.queue
  pub worked : (k : ℕ) → load k s.executor ≤ carried n k s.pool
  pub handled : (k : ℕ) → returning k s.executor ≡ brings k (s.pool.clients 0)

-- A worker whose own call returned is not counted by the runs that are left.
is_busy_lem :
    (k : ℕ) (s : Pooled) → is_busy k s ≡ false → load k s.executor < carried s.pool.threads k s.pool
unfolding is_busy
is_busy_lem k s h = ground arith

module _ {n : ℕ} (s : Pooled) (h : Coherent n s) where
  open h use {threads, open_pool, same_queue, worked, handled}

  -- The pool makes a step that starts, ends and submits no task.
  pub pool-Coherent : (d : ThreadPool) → Still n s.pool d → Coherent n (record s { pool = d })
  pool-Coherent d t = record {
    threads = t.threads ∙ threads;
    open_pool = t.stop ∙ open_pool;
    same_queue = same_queue ∙ sym t.queue;
    worked = λ k. omega (arith, worked k, t.carried_kept k);
    handled = λ k. handled k ∙ sym (t.brought k);
  }

  -- The executor does something that starts and submits no task.
  quiet-Coherent :
      (e : TaskExecutor)
      → Effect s.executor.queue none_of none_of s.executor e
      → Coherent n (record s { executor = e })
  quiet-Coherent e t = record {
    threads = threads;
    open_pool = open_pool;
    same_queue = t.queued ∙ same_queue;
    worked = λ k. omega (arith, worked k, t.loaded k);
    handled = λ k. omega (arith, handled k, t.returned k);
  }

  pops-Coherent :
      (le : ℕ → ℕ → Bool) (i : ℕ) (ks : List ℕ)
      → i < n
      → s.pool.workers i ≡ pops
      → s.pool.queue ≡ ks
      → Coherent n
          (record { executor = Executor.step le begins s.executor; pool = pop_task i ks s.pool })
  unfolding pop_task
  pops-Coherent le i [] lt at q =
      rw (begins-nothing le s.executor (same_queue ∙ q)) (pool-Coherent _ (pops-Still s.pool lt at))
  pops-Coherent le i (k ∷ ks) lt at q =
      let b = begins-Effect le k ks s.executor (same_queue ∙ q) in
      record {
        threads = threads;
        open_pool = open_pool;
        same_queue = b.queued;
        worked = λ j. omega (arith, worked j, b.loaded j, pops-carried s.pool lt k ks at j);
        handled = λ j. omega (arith, handled j, b.returned j);
      }

  -- The io thread, which is in no handler, runs the handler of a timer.
  handler-Coherent :
      (t : Timer) (kind : TimerKind) (e : TaskExecutor)
      → s.pool.clients 0 ≡ idle
      → Effect s.executor.queue none_of (again t kind) s.executor e
      → Coherent n (record { executor = e; pool = resubmit t kind s.pool })
  unfolding resubmit begin_call ThreadPool.step brings
  handler-Coherent t exec_timer e free f = quiet-Coherent e f
  handler-Coherent t retry_timer e free f =
      subst
        (λ c. Coherent n (record { executor = e; pool = begin_call 0 (checks t.task) c s.pool }))
        (sym free)
        (record {
          threads = threads;
          open_pool = open_pool;
          same_queue = f.queued ∙ same_queue;
          worked = λ k. omega (arith, worked k, f.loaded k);
          handled = λ k. ground (arith, handled k, f.returned k);
        })

  run_handler-Coherent :
      (le : ℕ → ℕ → Bool) (i : ℕ) (c : Client) (o : Option (Timer × List Timer))
      → s.pool.clients 0 ≡ c
      → take_expired i s.executor.timers ≡ o
      → Coherent n (run_handler le i c o s)
  unfolding run_handler
  run_handler-Coherent le i idle (some (t, rest)) free found =
      handler-Coherent t t.kind _ free (fires-Effect le i t rest s.executor found)
  run_handler-Coherent le i c o at found = h

  pub act-Coherent : (le : ℕ → ℕ → Bool) (v : Executor.Event) → Coherent n (act le v s)
  unfolding act
  act-Coherent le (ends k flags) = quiet-Coherent _ (ends-Quiet le k flags s.executor)
  act-Coherent le (gives_back k) = quiet-Coherent _ (gives_back-Quiet le k s.executor)
  act-Coherent le (expires i) = quiet-Coherent _ (expires-Quiet le i s.executor)
  act-Coherent le (passes m) = quiet-Coherent _ (passes-Quiet le m s.executor)
  act-Coherent le (fires i) = run_handler-Coherent le i _ _ refl refl
  act-Coherent le (submits k) = h
  act-Coherent le begins = h
  act-Coherent le (resubmits k) = h

  room : (k : ℕ) → is_busy k s ≡ false → load k s.executor < carried n k s.pool
  room k free = subst (λ m. load k s.executor < carried m k s.pool) threads (is_busy_lem k s free)

  -- A pool thread.
  pub pool_step-Coherent :
      (le : ℕ → ℕ → Bool) (acquired : Bool) (i : ℕ) (w : Worker)
      → i < n
      → s.pool.workers i ≡ w
      → Coherent n (pool_step le acquired i w s)
  unfolding pool_step worker_step carries
  pool_step-Coherent le acquired i pops lt at = pops-Coherent le i s.pool.queue lt at refl
  pool_step-Coherent le acquired i (executes k) lt at = elim (Bool-cases (is_busy k s)) [
    | inl busy ↦ rw busy h
    | inr free ↦ rw free (record {
      threads = threads;
      open_pool = open_pool;
      same_queue = same_queue;
      worked =
          λ j. ground (arith, worked j, room k free, returns-carried s.pool lt acquired k at j);
      handled = handled;
    })
  ]
  pool_step-Coherent le acquired i w lt at =
      pool-Coherent _ (worker_step-Still s.pool lt acquired w at (λ k. refl) (λ z. cc))
