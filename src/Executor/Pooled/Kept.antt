-- ===== src/Executor/Pooled/Kept.antt =====
-- The executor on its thread pool: every step keeps what the two have in common.
use tiny_reactor.Base.{
  ℕ, ◌≡◌, refl, sym, ap, ◌∙◌, Bool, true, false, List, [], ◌∷◌, ◌++◌, ltb, ◌==◌, arith, Bool-cases,
  inl, inr,
}
use tiny_reactor.Executor
use tiny_reactor.Executor.{
  TaskExecutor, Timer, TimerKind, exec_timer, retry_timer, submits, begins, ends, gives_back,
  resubmits, expires, fires, passes, take_expired,
}
use tiny_reactor.Executor.Counts.{returning}
use tiny_reactor.Executor.Pooled.{Pooled, Event, calls, works, steps, acts, enqueue_step, step, run}
use tiny_reactor.Executor.Pooled.Effects.{only, submits-Effect, Resubmitted, resubmits-Resubmitted}
use tiny_reactor.Executor.Pooled.PoolMoves.{brings, client_step-Still, begin_call-Still}
use tiny_reactor.ThreadPool
use tiny_reactor.ThreadPool.{
  ThreadPool, Worker, starting, loops, waits, pops, executes, uncounts, compares, claims, exchanges,
  swaps, naps, leaves, exited, Client, idle, refused, checks, pushes, rechecks, counts, releases,
  loads, stores, worker_step, pop_task, client_step, begin_call, enqueues, become, compares,
}
use tiny_reactor.Executor.Pooled.Coherent.{
  Coherent, pool-Coherent, act-Coherent, pool_step-Coherent,
}

module _ {n : ℕ} (s : Pooled) (h : Coherent n s) where
  open h use {threads, open_pool, same_queue, worked, handled}

  -- The queue takes the task of the io thread, or of another thread.
  resubmitted-Coherent :
      (le : ℕ → ℕ → Bool) (k : ℕ)
      → s.pool.clients 0 ≡ pushes k
      → Coherent n (record {
        executor = Executor.step le (resubmits k) s.executor;
        pool = client_step true 0 (pushes k) s.pool;
      })
  unfolding client_step brings
  resubmitted-Coherent le k at =
      let brought : (j : ℕ) → returning j s.executor ≡ only k j =
        λ j. handled j ∙ ap (brings j) at in
      let r : Resubmitted k s.executor (Executor.step le (resubmits k) s.executor) =
        resubmits-Resubmitted le k s.executor (ground (arith, brought k)) in
      record {
        threads = threads;
        open_pool = open_pool;
        same_queue = r.queued ∙ ap (λ q. q ++ k ∷ []) same_queue;
        worked = λ j. omega (arith, worked j, r.loaded j);
        handled = λ j. omega (arith, brought j, r.returned j);
      }

  submitted-Coherent :
      (le : ℕ → ℕ → Bool) (c k : ℕ)
      → (c == 0) ≡ false
      → Coherent n (record {
        executor = Executor.step le (submits k) s.executor;
        pool = client_step true c (pushes k) s.pool;
      })
  unfolding client_step
  submitted-Coherent le c k other =
      let f = submits-Effect le k s.executor in
      record {
        threads = threads;
        open_pool = open_pool;
        same_queue = f.queued ∙ ap (λ q. q ++ k ∷ []) same_queue;
        worked = λ j. omega (arith, worked j, f.loaded j);
        handled = λ j. rw other (omega (arith, handled j, f.returned j));
      }

  -- A thread in `execute_task`.
  enqueue_step-Coherent :
      (le : ℕ → ℕ → Bool) (pushed : Bool) (c : ℕ) (w : Client)
      → s.pool.clients c ≡ w
      → Coherent n (enqueue_step le pushed c w s)
  unfolding enqueue_step
  enqueue_step-Coherent le true c (pushes k) at = elim (Bool-cases (c == 0)) [
    | inl io ↦
        let zeroth : c ≡ 0 = ground arith in
        rw (io, zeroth) (resubmitted-Coherent le k (ap s.pool.clients (sym zeroth) ∙ at))
    | inr other ↦ rw other (submitted-Coherent le c k other)
  ]
  enqueue_step-Coherent le pushed c w at =
      pool-Coherent s h _ (client_step-Still n pushed c w s.pool at open_pool (λ k p z. cc))

pub step-Coherent :
    {n : ℕ} (le : ℕ → ℕ → Bool) (v : Event) (s : Pooled) → Coherent n s → Coherent n (step le v s)
unfolding step ThreadPool.step
step-Coherent {n} le (calls c k) s h = elim (Bool-cases (c == 0)) [
  | inl io ↦ rw io h
  | inr other ↦
      rw other (pool-Coherent s h _ (begin_call-Still n c k (s.pool.clients c) s.pool other))
]
step-Coherent {n} le (works acquired i) s h = elim (Bool-cases (ltb i s.pool.threads)) [
  | inl known ↦
      rw known
        (pool_step-Coherent s h le acquired i (s.pool.workers i) (ground (arith, h.threads)) refl)
  | inr unknown ↦ rw unknown h
]
step-Coherent le (steps pushed c) s h =
    enqueue_step-Coherent s h le pushed c (s.pool.clients c) refl
step-Coherent le (acts v) s h = act-Coherent s h le v

pub run-Coherent :
    {n : ℕ} (le : ℕ → ℕ → Bool) (vs : List Event) (s : Pooled)
    → Coherent n s
    → Coherent n (run le vs s)
unfolding run
run-Coherent le [] s h = h
run-Coherent le (v ∷ vs) s h = run-Coherent le vs (step le v s) (step-Coherent le v s h)
