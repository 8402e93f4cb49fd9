-- ===== src/Executor/Pooled/PoolMoves.antt =====
-- thread_pool.cpp: what a step in the pool of the executor does to the queue, to the tasks that the
-- workers run, and to the task that the io thread submits.
use tiny_reactor.Base.{
  either, ℕ, ◌+◌, ◌≡◌, ◌≢◌, ◌<◌, refl, sym, subst, Bool, true, false, List, [], ◌∷◌, ltb, ◌==◌,
  if◌then◌else◌, total, arith,
}
use tiny_reactor.ThreadPool.{
  ThreadPool, Worker, starting, loops, waits, pops, executes, uncounts, compares, weighs, claims,
  exchanges, swaps, naps, leaves, exited, become, try_acquire, worker_step, pop_task, Client, idle,
  refused, checks, pushes, rechecks, counts, releases, loads, stores, answer, client_step,
  begin_call,
}
use tiny_reactor.ThreadPool.Measures.{carries, moved}
use tiny_reactor.Executor.Pooled.Effects.{only}

-- How often the client is about to push `k`.
unfoldable pub brings : ℕ → Client → ℕ
brings k (checks j) = only j k
brings k (pushes j) = only j k
brings k (rechecks j) = only j k
brings k _ = 0

-- How often the first `n` workers run `k`.
abbrev pub carried : (n k : ℕ) → ThreadPool → ℕ
carried n k d = total (carries k) n d.workers

-- A step that starts, ends and submits no task.
pub record Still (n : ℕ) (d e : ThreadPool) : Type 0 where
  pub queue : e.queue ≡ d.queue
  pub stop : e.stop ≡ d.stop
  pub threads : e.threads ≡ d.threads
  pub carried_kept : (k : ℕ) → carried n k e ≡ carried n k d
  pub brought : (k : ℕ) → brings k (e.clients 0) ≡ brings k (d.clients 0)

same-Still : (n : ℕ) (d : ThreadPool) → Still n d d
same-Still n d = record {
  queue = refl;
  stop = refl;
  threads = refl;
  carried_kept = λ k. refl;
  brought = λ k. refl;
}

module _ {n i : ℕ} (d : ThreadPool) (lt : i < n) where
  placed :
      {old : Worker} (next : Worker) (active sem leftover : ℕ)
      → d.workers i ≡ old
      → ((k : ℕ) → carries k old ≡ carries k next)
      → Still n d (
          become i next (record d { active_threads = active; task_sem = sem; leftover = leftover }))
  placed next active sem leftover at c = record {
    queue = refl;
    stop = refl;
    threads = refl;
    carried_kept = λ k. omega (arith, moved (carries k) n d.workers i next lt at, c k);
    brought = λ k. refl;
  }

  -- A worker that runs no task and takes none.
  pub worker_step-Still :
      (acquired : Bool) (w : Worker)
      → d.workers i ≡ w
      → ((k : ℕ) → carries k w ≡ 0)
      → w ≢ pops
      → Still n d (worker_step acquired i w d)
  unfolding worker_step try_acquire carries
  worker_step-Still acquired starting at c p = placed _ _ _ _ at (λ k. refl)
  worker_step-Still acquired loops at c p = placed _ _ _ _ at (λ k. ground arith)
  worker_step-Still true waits at c p =
      either (Still n d) (ltb 0 d.task_sem) (placed _ d.active_threads _ d.leftover at (λ k. refl))
        (placed _ d.active_threads _ d.leftover at (λ k. refl))
  worker_step-Still false waits at c p = placed _ _ _ _ at (λ k. refl)
  worker_step-Still acquired pops at c p = absurd (p refl)
  worker_step-Still acquired (executes k) at c p = absurd (ground (arith, c k))
  worker_step-Still acquired uncounts at c p = placed _ _ _ _ at (λ k. refl)
  worker_step-Still acquired compares at c p = placed _ _ _ _ at (λ k. refl)
  worker_step-Still acquired (weighs active) at c p = placed _ _ _ _ at (λ k. ground arith)
  worker_step-Still acquired claims at c p = placed _ _ _ _ at (λ k. refl)
  worker_step-Still acquired (exchanges old) at c p = placed _ _ _ _ at (λ k. ground arith)
  worker_step-Still acquired (swaps old) at c p =
      either (Still n d) (d.active_threads == old) (placed _ _ d.task_sem d.leftover at (λ k. refl))
        (placed _ d.active_threads d.task_sem d.leftover at (λ k. refl))
  worker_step-Still acquired naps at c p = placed _ _ _ _ at (λ k. refl)
  worker_step-Still acquired leaves at c p = placed _ _ _ _ at (λ k. refl)
  worker_step-Still acquired exited at c p = same-Still n d

  -- A worker finds the queue empty.
  pub pops-Still : d.workers i ≡ pops → Still n d (pop_task i [] d)
  unfolding pop_task carries
  pops-Still at = placed compares d.active_threads d.task_sem d.leftover at (λ k. refl)

  -- A worker takes the first task.
  pub pops-carried :
      (k : ℕ) (ks : List ℕ)
      → d.workers i ≡ pops
      → (j : ℕ) → carried n j (pop_task i (k ∷ ks) d) ≡ carried n j d + only k j
  unfolding pop_task carries
  pops-carried k ks at j = omega (arith, moved (carries j) n d.workers i (executes k) lt at)

  -- A worker whose task has returned.
  pub returns-carried :
      (acquired : Bool) (k : ℕ)
      → d.workers i ≡ executes k
      → (j : ℕ) → carried n j (worker_step acquired i (executes k) d) + only k j ≡ carried n j d
  unfolding worker_step carries
  returns-carried acquired k at j = omega (arith, moved (carries j) n d.workers i uncounts lt at)

-- A client moves to a place in which it brings the same task.
asked :
    (n c : ℕ) (d : ThreadPool) {old : Client} (next : Client) (target sem leftover : ℕ)
    → d.clients c ≡ old
    → ((k : ℕ) → brings k next ≡ brings k old)
    → Still n d (
        answer c next
          (record d { target_thread_count = target; task_sem = sem; leftover = leftover }))
asked n c d next target sem leftover at b = record {
  queue = refl;
  stop = refl;
  threads = refl;
  carried_kept = λ k. refl;
  brought = λ k. ground (arith, at, b k);
}

-- While the pool runs: a client whose task the queue does not take in this step.
pub client_step-Still :
    (n : ℕ) (pushed : Bool) (c : ℕ) (w : Client) (d : ThreadPool)
    → d.clients c ≡ w
    → d.stop ≡ false
    → ((k : ℕ) → pushed ≡ true → w ≢ pushes k)
    → Still n d (client_step pushed c w d)
unfolding client_step brings
client_step-Still n pushed c idle d at s p = same-Still n d
client_step-Still n pushed c refused d at s p = same-Still n d
client_step-Still n pushed c (checks k) d at s p =
    subst (λ b. Still n d (answer c (if b then refused else pushes k) d)) (sym s)
      (asked n c d (pushes k) _ _ _ at (λ j. refl))
client_step-Still n true c (pushes k) d at s p = absurd (p k refl refl)
client_step-Still n false c (pushes k) d at s p = asked n c d _ _ _ _ at (λ k. refl)
client_step-Still n pushed c (rechecks k) d at s p =
    subst (λ b. Still n d (answer c (if b then refused else pushes k) d)) (sym s)
      (asked n c d (pushes k) _ _ _ at (λ j. refl))
client_step-Still n pushed c counts d at s p = asked n c d _ _ _ _ at (λ k. refl)
client_step-Still n pushed c releases d at s p = asked n c d _ _ _ _ at (λ k. refl)
client_step-Still n pushed c (loads m) d at s p = asked n c d _ _ _ _ at (λ k. refl)
client_step-Still n pushed c (stores m) d at s p = asked n c d _ _ _ _ at (λ k. refl)

called : (n c k : ℕ) (d : ThreadPool) → (c == 0) ≡ false → Still n d (answer c (checks k) d)
called n c k d other = record {
  queue = refl;
  stop = refl;
  threads = refl;
  carried_kept = λ j. refl;
  brought = λ j. rw other refl;
}

-- Another thread than the io thread calls `enqueue`.
pub begin_call-Still :
    (n c k : ℕ) (w : Client) (d : ThreadPool)
    → (c == 0) ≡ false
    → Still n d (begin_call c (checks k) w d)
unfolding begin_call brings
begin_call-Still n c k idle d other = called n c k d other
begin_call-Still n c k refused d other = called n c k d other
begin_call-Still n c k w d other = same-Still n d
