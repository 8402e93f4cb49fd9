-- ===== src/ThreadPool/Serving.antt =====
-- thread_pool.cpp: a task in the queue is run by any worker that stays.
use tiny_reactor.Base.{
  ℕ, ◌≡◌, ◌≢◌, ◌≤◌, ◌<◌, refl, ap, Bool, true, false, List, ◌∷◌, ltb, ◌==◌, total, arith, All,
  length, Bool-cases, inl, inr,
}
use tiny_reactor.ThreadPool.{
  ThreadPool, Worker, Event, starting, loops, waits, pops, executes, uncounts, compares, weighs,
  claims, exchanges, swaps, naps, leaves, exited, worker_step, run, make_pool,
}
use tiny_reactor.ThreadPool.Measures.{InRange}
use tiny_reactor.ThreadPool.Wakeups.{is_signalling, is_popping, AreTimely, run-IsAwake}
use tiny_reactor.ThreadPool.Turns.{
  Serves, Ready, arrived, turn, later, from_loops, from_naps, from_starting, from_waits,
}

-- A worker that has not decided to leave, and is not about to look into the queue.
unfoldable pub is_staying : Worker → Bool
is_staying pops = false
is_staying (swaps _) = false
is_staying leaves = false
is_staying exited = false
is_staying _ = true

-- No worker is to leave.
module _ {i k : ℕ} {ks : List ℕ} (d : ThreadPool) (free : 0 < d.task_sem)
    (few : d.active_threads ≤ d.target_thread_count) where
  from_swaps : {old : ℕ} → old ≢ d.active_threads → Ready i (k ∷ ks) (swaps old) d → Serves i k 6 d
  unfolding worker_step
  from_swaps {old} stale r =
      let fails : (d.active_threads == old) ≡ false = ground arith in
      turn d r (rw fails (from_naps _ free (arrived naps _ _ _ _ _ d r r.waiting)))

module _ {i k : ℕ} {ks : List ℕ} (d : ThreadPool) (free : 0 < d.task_sem)
    (few : d.active_threads ≤ d.target_thread_count) where
  from_exchanges : {old : ℕ} → Ready i (k ∷ ks) (exchanges old) d → Serves i k 7 d
  unfolding worker_step
  from_exchanges {old} r = elim (Bool-cases (ltb d.target_thread_count old)) [
    | inl above ↦ turn d r (
        rw above (
          from_swaps _ free few (ground (arith, few))
            (arrived (swaps old) _ _ _ _ _ d r r.waiting)))
    | inr below ↦
        turn d r (
          rw below
            (later _ (from_naps _ free (arrived naps _ _ _ _ _ d r r.waiting)) (omega arith)))
  ]

module _ {i k : ℕ} {ks : List ℕ} (d : ThreadPool) (free : 0 < d.task_sem)
    (few : d.active_threads ≤ d.target_thread_count) where
  from_claims : Ready i (k ∷ ks) claims d → Serves i k 8 d
  unfolding worker_step
  from_claims r =
      turn d r (from_exchanges _ free few (arrived (exchanges _) _ _ _ _ _ d r r.waiting))

module _ {i k : ℕ} {ks : List ℕ} (d : ThreadPool) (free : 0 < d.task_sem)
    (few : d.active_threads ≤ d.target_thread_count) where
  from_weighs : {active : ℕ} → Ready i (k ∷ ks) (weighs active) d → Serves i k 9 d
  unfolding worker_step
  from_weighs {active} r = elim (Bool-cases (ltb d.target_thread_count active)) [
    | inl above ↦
        turn d r (rw above (from_claims _ free few (arrived claims _ _ _ _ _ d r r.waiting)))
    | inr below ↦ turn d r (
        rw below
          (later _ (from_loops _ free (arrived loops _ _ _ _ _ d r r.waiting)) (omega arith)))
  ]

  -- It weighs the number that it has just loaded.
  weighs_now : Ready i (k ∷ ks) (weighs d.active_threads) d → Serves i k 5 d
  unfolding worker_step
  weighs_now r =
      let stays : ltb d.target_thread_count d.active_threads ≡ false = ground arith in
      turn d r (rw stays (from_loops _ free (arrived loops _ _ _ _ _ d r r.waiting)))

module _ {i k : ℕ} {ks : List ℕ} (d : ThreadPool) (free : 0 < d.task_sem)
    (few : d.active_threads ≤ d.target_thread_count) where
  from_compares : Ready i (k ∷ ks) compares d → Serves i k 6 d
  unfolding worker_step
  from_compares r = turn d r (weighs_now _ free few (arrived (weighs _) _ _ _ _ _ d r r.waiting))

module _ {i k : ℕ} {ks : List ℕ} (d : ThreadPool) (free : 0 < d.task_sem)
    (few : d.active_threads ≤ d.target_thread_count) where
  from_uncounts : Ready i (k ∷ ks) uncounts d → Serves i k 7 d
  unfolding worker_step
  from_uncounts r = turn d r (from_compares _ free few (arrived compares _ _ _ _ _ d r r.waiting))

module _ {i k : ℕ} {ks : List ℕ} (d : ThreadPool) (free : 0 < d.task_sem)
    (few : d.active_threads ≤ d.target_thread_count) where
  from_other : {j : ℕ} → Ready i (k ∷ ks) (executes j) d → Serves i k 8 d
  unfolding worker_step
  from_other r = turn d r (from_uncounts _ free few (arrived uncounts _ _ _ _ _ d r r.waiting))

module _ {i k : ℕ} {ks : List ℕ} (d : ThreadPool) (free : 0 < d.task_sem)
    (few : d.active_threads ≤ d.target_thread_count) where
  from_any : (w : Worker) → is_staying w ≡ true → Ready i (k ∷ ks) w d → Serves i k 9 d
  unfolding is_staying
  from_any starting s r = later d (from_starting d free r) (omega arith)
  from_any loops s r = later d (from_loops d free r) (omega arith)
  from_any waits s r = later d (from_waits d free r) (omega arith)
  from_any (executes j) s r = later d (from_other d free few r) (omega arith)
  from_any uncounts s r = later d (from_uncounts d free few r) (omega arith)
  from_any compares s r = later d (from_compares d free few r) (omega arith)
  from_any claims s r = later d (from_claims d free few r) (omega arith)
  from_any (weighs active) s r = from_weighs d free few r
  from_any (exchanges old) s r = later d (from_exchanges d free few r) (omega arith)
  from_any naps s r = later d (from_naps d free r) (omega arith)
  from_any w s r = cc

-- After any interleaving of workers and clients numbered below `n` in which no release goes beyond the
-- maximum of the binary semaphore, which is one: while the pool runs, no worker is to leave, every call of `enqueue` has returned, and no worker has acquired the semaphore without
-- having looked into the queue, the first task of the queue is run by any worker that has not decided
-- to leave, in nine of its own steps at most, if its waits for the semaphore are long enough.
pub run-Serves :
    (n m i k : ℕ) (ks : List ℕ) (vs : List Event)
    → All (InRange n) vs
    → AreTimely vs (make_pool m)
    → let d = run vs (make_pool m) in
      d.stop ≡ false
      → i < d.threads
      → is_staying (d.workers i) ≡ true
      → d.active_threads ≤ d.target_thread_count
      → total is_signalling n d.clients ≡ 0
      → total is_popping n d.workers ≡ 0
      → d.queue ≡ k ∷ ks
      → Serves i k 9 d
run-Serves n m i k ks vs h timely runs known stays few told none_pops first =
    from_any (run vs (make_pool m))
      (omega (arith, run-IsAwake n m vs h timely, told, none_pops, ap length first)) few
      ((run vs (make_pool m)).workers i) stays
      (record { runs = runs; waiting = first; known = ground (arith, known); place = refl })
