-- ===== src/ThreadPool/Accounting.antt =====
-- thread_pool.cpp: the counters of the pool, and where its tasks are.
use tiny_reactor.Base.{
  ℕ, Bool, ◌+◌, ◌≡◌, ◌<◌, ◌%◌, ◌^◌, refl, ap, List, [], ◌∷◌, ltb, total, total_zero, tally, arith,
  All, length, Bool-cases, inl, inr,
}
use tiny_reactor.ThreadPool.{
  ThreadPool, Worker, Client, Event, starting, idle, checks, loads, works, steps, enqueues, removes,
  adds, shuts_down, destroys, Destructor, not_called, frees, drains, discounts, joins, returned,
  add_threads, shutdown, destroy_step, all_exited, drain, step, run, make_pool, get_thread_count,
  get_tasks_left,
}
use tiny_reactor.ThreadPool.Measures.{
  is_active, has_task, is_uncounted, is_discounting, carries, count, InRange,
}
use tiny_reactor.ThreadPool.WorkerMoves.{Worked, worker_step-Worked}
use tiny_reactor.ThreadPool.Moves.{Asked, client_step-Asked, begin_call-Asked}

pub record Accounts (n : ℕ) (d : ThreadPool) : Type 0 where
  pub small : d.active_threads < 2 ^ 64
  pub active : d.active_threads ≡ total is_active n d.workers % 2 ^ 64
  pub left :
      (d.leftover + total is_uncounted n d.clients) % 2 ^ 64
      ≡ (length d.queue + total has_task n d.workers + is_discounting d.destructor) % 2 ^ 64
  pub tasks :
      (k : ℕ)
      → count k d.accepted
        ≡ count k d.queue + total (carries k) n d.workers + count k d.finished + count k d.discarded

module _ {n : ℕ} {d e : ThreadPool} (a : Accounts n d) where
  open a use {small, active, left, tasks}

  worked : {i : ℕ} {w : Worker} → Worked n i w d e → Accounts n e
  worked {i} {w} m = record {
    small = (m.active small).0;
    active = omega (arith, m.active small, m.place is_active, active);
    left = omega (
      arith,
      m.left,
      m.place has_task,
      left,
      ap (total is_uncounted n) m.clients,
      ap is_discounting m.destructor,
    );
    tasks = λ k. omega (
      arith,
      m.tasks k,
      m.place (carries k),
      tasks k,
      ap (count k) m.accepted,
      ap (count k) m.discarded,
    );
  }

  asked : {c : ℕ} {w : Client} → Asked n c w d e → Accounts n e
  asked {c} {w} m = record {
    small = omega (arith, m.active, small);
    active = omega (arith, m.active, active, ap (total is_active n) m.workers);
    left = omega (
      arith,
      m.left,
      m.place,
      left,
      ap (total has_task n) m.workers,
      ap is_discounting m.destructor,
    );
    tasks = λ k. omega (
      arith,
      m.tasks k,
      tasks k,
      ap (total (carries k) n) m.workers,
      ap (count k) m.finished,
      ap (count k) m.discarded,
    );
  }

-- The destructor moves on and counts nothing.
moves_on :
    {n : ℕ} (d : ThreadPool) {w : Destructor} (next : Destructor) (stop : Bool) (sem : ℕ)
    → d.destructor ≡ w
    → is_discounting w ≡ is_discounting next
    → Accounts n d
    → Accounts n (record d { stop = stop; task_sem = sem; destructor = next })
moves_on d next stop sem at same a = record {
  small = a.small;
  active = a.active;
  left = omega (arith, a.left, ap is_discounting at, same);
  tasks = a.tasks;
}

drain-Accounts :
    {n : ℕ} (d : ThreadPool) (ks : List ℕ)
    → d.queue ≡ ks
    → d.destructor ≡ drains
    → Accounts n d
    → Accounts n (drain ks d)
unfolding drain tally is_discounting
drain-Accounts d [] q w a = moves_on d joins _ _ w refl a
drain-Accounts d (k ∷ ks) q w a = record {
  small = a.small;
  active = a.active;
  left = omega (arith, a.left, ap length q, ap is_discounting w);
  tasks = λ j. omega (arith, a.tasks j, ap (count j) q);
}

destroy_step-Accounts :
    {n : ℕ} (d : ThreadPool) (w : Destructor)
    → d.destructor ≡ w
    → Accounts n d
    → Accounts n (destroy_step w d)
unfolding destroy_step is_discounting
destroy_step-Accounts d not_called w a = moves_on d frees _ _ w refl a
destroy_step-Accounts d frees w a = moves_on d drains _ _ w refl a
destroy_step-Accounts d drains w a = drain-Accounts d d.queue refl w a
destroy_step-Accounts d discounts w a = record {
  small = a.small;
  active = a.active;
  left = omega (arith, a.left, ap is_discounting w);
  tasks = a.tasks;
}
destroy_step-Accounts d joins w a = elim (Bool-cases (all_exited d.threads d.workers)) [
  | inl over ↦ rw over (moves_on d returned _ _ w refl a)
  | inr busy ↦ rw busy a
]
destroy_step-Accounts d returned w a = a

step-Accounts :
    (n : ℕ) (v : Event) (d : ThreadPool) → InRange n v → Accounts n d → Accounts n (step v d)
unfolding step add_threads shutdown is_uncounted
step-Accounts n (works acquired i) d h a = elim (Bool-cases (ltb i d.threads)) [
  | inl known ↦ rw known (worked a (worker_step-Worked d h acquired (d.workers i) refl))
  | inr unknown ↦ rw unknown a
]
step-Accounts n (steps pushed c) d h a = asked a (client_step-Asked d h pushed (d.clients c) refl)
step-Accounts n (enqueues c k) d h a =
    asked a (begin_call-Asked d h (checks k) (d.clients c) refl refl)
step-Accounts n (removes c m) d h a =
    asked a (begin_call-Asked d h (loads m) (d.clients c) refl refl)
step-Accounts n (adds m) d h a = record {
  small = a.small;
  active = a.active;
  left = a.left;
  tasks = a.tasks;
}
step-Accounts n shuts_down d h a = record {
  small = a.small;
  active = a.active;
  left = a.left;
  tasks = a.tasks;
}
step-Accounts n destroys d h a = destroy_step-Accounts d d.destructor refl a

pub run-Accounts :
    (n : ℕ) (vs : List Event) (d : ThreadPool)
    → All (InRange n) vs
    → Accounts n d
    → Accounts n (run vs d)
unfolding run
run-Accounts n [] d h a = a
run-Accounts n (v ∷ vs) d h a = run-Accounts n vs (step v d) h.1 (step-Accounts n v d h.0 a)

pub make_pool-Accounts : (n m : ℕ) → Accounts n (make_pool m)
unfolding make_pool tally is_discounting is_active is_uncounted has_task carries
make_pool-Accounts n m = record {
  small = omega arith;
  active = rw (total_zero is_active n starting refl) refl;
  left = rw (total_zero is_uncounted n idle refl, total_zero has_task n starting refl) refl;
  tasks = λ k. rw (total_zero (carries k) n starting refl) refl;
}

-- After any interleaving of workers and clients numbered below `n`, `get_thread_count` is the number
-- of workers that have started and not left, as a 64-bit number.
pub run-active_threads :
    (n m : ℕ) (vs : List Event)
    → All (InRange n) vs
    → let d = run vs (make_pool m) in get_thread_count d ≡ total is_active n d.workers % 2 ^ 64
run-active_threads n m vs h = (run-Accounts n vs (make_pool m) h (make_pool-Accounts n m)).active

-- After any interleaving of workers and clients numbered below `n`, `get_tasks_left` and the tasks that
-- were pushed but not yet counted make up, as 64-bit numbers, the tasks in the queue and those that
-- a worker or the destructor has popped and not yet counted off.
pub run-tasks_left :
    (n m : ℕ) (vs : List Event)
    → All (InRange n) vs
    → let d = run vs (make_pool m) in
      (get_tasks_left d + total is_uncounted n d.clients) % 2 ^ 64
      ≡ (length d.queue + total has_task n d.workers + is_discounting d.destructor) % 2 ^ 64
run-tasks_left n m vs h = (run-Accounts n vs (make_pool m) h (make_pool-Accounts n m)).left

-- After any interleaving of workers and clients numbered below `n`, a task that was pushed is as many
-- times in the queue, with a worker that is about to run it, finished, or discarded by the destructor
-- as it was pushed: no task is lost, and none runs twice.
pub run-conserved :
    (n m k : ℕ) (vs : List Event)
    → All (InRange n) vs
    → let d = run vs (make_pool m) in
      count k d.accepted
      ≡ count k d.queue + total (carries k) n d.workers + count k d.finished + count k d.discarded
run-conserved n m k vs h = (run-Accounts n vs (make_pool m) h (make_pool-Accounts n m)).tasks k
