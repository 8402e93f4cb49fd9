-- ===== src/ThreadPool/WorkerMoves.antt =====
-- thread_pool.cpp: what one step of a worker changes, in one place.
use tiny_reactor.Base.{
  ℕ, ◌+◌, ◌≡◌, ◌<◌, ◌%◌, ◌^◌, refl, Bool, true, false, List, [], ◌∷◌, ltb, ◌==◌, if◌then◌else◌,
  total, tally, arith, length, Bool-cases, inl, inr,
}
use tiny_reactor.ThreadPool.{
  ThreadPool, Worker, starting, loops, waits, pops, executes, uncounts, compares, weighs, claims,
  exchanges, swaps, naps, leaves, exited, become, pop_task, try_acquire, worker_step,
}
use tiny_reactor.ThreadPool.Measures.{is_active, has_task, carries, count, moved}

-- The worker `i` moves from `old` to `next` while the pool goes from `d` to `e`.
pub record Worked (n i : ℕ) (old : Worker) (d e : ThreadPool) : Type 1 where
  pub next : Worker
  pub place : (m : Worker → ℕ) → total m n e.workers + m old ≡ total m n d.workers + m next
  pub active :
      d.active_threads < 2 ^ 64
      → (e.active_threads < 2 ^ 64)
        × ((e.active_threads + is_active old) % 2 ^ 64
            ≡ (d.active_threads + is_active next) % 2 ^ 64)
  pub left :
      (e.leftover + length d.queue + has_task old) % 2 ^ 64
      ≡ (d.leftover + length e.queue + has_task next) % 2 ^ 64
  pub tasks :
      (k : ℕ)
      → count k e.queue + carries k next + count k e.finished
        ≡ count k d.queue + carries k old + count k d.finished
  pub clients : e.clients ≡ d.clients
  pub stop : e.stop ≡ d.stop
  pub accepted : e.accepted ≡ d.accepted
  pub discarded : e.discarded ≡ d.discarded
  pub destructor : e.destructor ≡ d.destructor

module _ {n i : ℕ} (d : ThreadPool) (h : i < n) where
  -- A move that touches nothing but the place.
  only_place :
      {old : Worker} (next : Worker)
      → d.workers i ≡ old
      → is_active old ≡ is_active next
      → has_task old ≡ has_task next
      → ((k : ℕ) → carries k old ≡ carries k next)
      → Worked n i old d (become i next d)
  only_place next e a t c = record {
    next = next;
    place = λ m. moved m n d.workers i next h e;
    active = λ b. (b, omega (arith, a));
    left = omega (arith, t);
    tasks = λ k. omega (arith, c k);
    clients = refl;
    stop = refl;
    accepted = refl;
    discarded = refl;
    destructor = refl;
  }

  pop_task-Worked :
      (ks : List ℕ) → d.workers i ≡ pops → d.queue ≡ ks → Worked n i pops d (pop_task i ks d)
  unfolding pop_task is_active has_task carries tally
  pop_task-Worked [] e q = only_place compares e refl refl (λ k. refl)
  pop_task-Worked (k ∷ ks) e q = record {
    next = executes k;
    place = λ m. moved m n d.workers i (executes k) h e;
    active = λ b. (b, refl);
    left = ground (arith, q);
    tasks = λ j. ground (arith, q);
    clients = refl;
    stop = refl;
    accepted = refl;
    discarded = refl;
    destructor = refl;
  }

  try_acquire-Worked :
      (acquired : Bool) → d.workers i ≡ waits → Worked n i waits d (try_acquire acquired i d)
  unfolding try_acquire is_active has_task carries
  try_acquire-Worked true e = elim (Bool-cases (ltb 0 d.task_sem)) [
    | inl free ↦ rw free (record {
      next = pops;
      place = λ m. moved m n d.workers i pops h e;
      active = λ b. (b, refl);
      left = refl;
      tasks = λ k. refl;
      clients = refl;
      stop = refl;
      accepted = refl;
      discarded = refl;
      destructor = refl;
    })
    | inr taken ↦ rw taken (only_place compares e refl refl (λ k. refl))
  ]
  try_acquire-Worked false e = only_place compares e refl refl (λ k. refl)

  -- A move that changes only `active_threads`.
  with_active :
      {old : Worker} (next : Worker) (x : ℕ)
      → d.workers i ≡ old
      → (d.active_threads < 2 ^ 64
          → (x < 2 ^ 64)
            × ((x + is_active old) % 2 ^ 64 ≡ (d.active_threads + is_active next) % 2 ^ 64))
      → has_task old ≡ has_task next
      → ((k : ℕ) → carries k old ≡ carries k next)
      → Worked n i old d (become i next (record d { active_threads = x }))
  with_active next x e a t c = record {
    next = next;
    place = λ m. moved m n d.workers i next h e;
    active = a;
    left = omega (arith, t);
    tasks = λ k. omega (arith, c k);
    clients = refl;
    stop = refl;
    accepted = refl;
    discarded = refl;
    destructor = refl;
  }

  either :
      {old : Worker} (b : Bool) (p q : Worker)
      → Worked n i old d (become i p d)
      → Worked n i old d (become i q d)
      → Worked n i old d (become i (if b then p else q) d)
  either true p q x y = x
  either false p q x y = y

  pub worker_step-Worked :
      (acquired : Bool) (w : Worker) → d.workers i ≡ w → Worked n i w d (worker_step acquired i w d)
  unfolding worker_step is_active has_task carries tally
  worker_step-Worked acquired starting e =
      with_active loops _ e (λ b. (omega arith, omega arith)) refl (λ k. refl)
  worker_step-Worked acquired loops e =
      either d.stop leaves waits (only_place leaves e refl refl (λ k. refl))
        (only_place waits e refl refl (λ k. refl))
  worker_step-Worked acquired waits e = try_acquire-Worked acquired e
  worker_step-Worked acquired pops e = pop_task-Worked d.queue e refl
  worker_step-Worked acquired (executes k) e = record {
    next = uncounts;
    place = λ m. moved m n d.workers i uncounts h e;
    active = λ b. (b, refl);
    left = refl;
    tasks = λ j. omega arith;
    clients = refl;
    stop = refl;
    accepted = refl;
    discarded = refl;
    destructor = refl;
  }
  worker_step-Worked acquired uncounts e = record {
    next = compares;
    place = λ m. moved m n d.workers i compares h e;
    active = λ b. (b, refl);
    left = omega arith;
    tasks = λ j. refl;
    clients = refl;
    stop = refl;
    accepted = refl;
    discarded = refl;
    destructor = refl;
  }
  worker_step-Worked acquired compares e = only_place (weighs _) e refl refl (λ k. refl)
  worker_step-Worked acquired (weighs active) e =
      either _ claims loops (only_place claims e refl refl (λ k. refl))
        (only_place loops e refl refl (λ k. refl))
  worker_step-Worked acquired claims e = only_place _ e refl refl (λ k. refl)
  worker_step-Worked acquired (exchanges old) e =
      either _ (swaps old) naps (only_place (swaps old) e refl refl (λ k. refl))
        (only_place naps e refl refl (λ k. refl))
  worker_step-Worked acquired (swaps old) e = elim (Bool-cases (d.active_threads == old)) [
    | inl same ↦
        rw same (with_active exited _ e (λ b. (omega arith, ground arith)) refl (λ k. refl))
    | inr other ↦ rw other (only_place naps e refl refl (λ k. refl))
  ]
  worker_step-Worked acquired naps e = only_place loops e refl refl (λ k. refl)
  worker_step-Worked acquired leaves e =
      with_active exited _ e (λ b. (omega arith, omega arith)) refl (λ k. refl)
  worker_step-Worked acquired exited e = record {
    next = exited;
    place = λ m. refl;
    active = λ b. (b, refl);
    left = refl;
    tasks = λ k. refl;
    clients = refl;
    stop = refl;
    accepted = refl;
    discarded = refl;
    destructor = refl;
  }
