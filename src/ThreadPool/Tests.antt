-- ===== src/ThreadPool/Tests.antt =====
-- thread_pool.cpp: runs at concrete inputs.
use tiny_reactor.Base.{
  ℕ, ◌+◌, ◌*◌, ◌≡◌, ◌≤◌, ◌<◌, ◌⊎◌, inl, inr, ◌%◌, ◌^◌, refl, true, false, List, [], ◌∷◌, ◌++◌,
  total, tally, All, arith, length,
}
use tiny_reactor.ThreadPool.{
  ThreadPool, Event, works, steps, enqueues, destroys, returned, step, overruns, exited, make_pool,
  get_thread_count, get_tasks_left, run,
}
use tiny_reactor.ThreadPool.Measures.{
  InRange, is_active, has_task, is_uncounted, is_discounting, carries, count,
}
use tiny_reactor.ThreadPool.Accounting.{run-active_threads, run-tasks_left, run-conserved}
use tiny_reactor.ThreadPool.Stopping.{is_step_of, stopped_worker-exited}
use tiny_reactor.ThreadPool.Wakeups.{AreTimely, is_signalling, is_popping}
use tiny_reactor.ThreadPool.Destroying.{IsDestroying}
use tiny_reactor.ThreadPool.Destroyed.{Settled}
use tiny_reactor.ThreadPool.Returning.{goes_on, destroyed_pool-returns}
use tiny_reactor.ThreadPool.Turns.{Serves}
use tiny_reactor.ThreadPool.Serving.{is_staying, run-Serves}
use tiny_reactor.ThreadPool.Refusing.{is_pushing, admitted, stopped_pool-admitted}

-- A client pushes task 7, which the worker runs before the client has counted it.
abbrev busy : List Event
busy =
    enqueues 1 7
    ∷ steps true 1
    ∷ steps false 1
    ∷ steps true 1
    ∷ steps true 1
    ∷ works true 0
    ∷ enqueues 0 8
    ∷ steps true 0
    ∷ steps true 0
    ∷ steps true 0
    ∷ steps true 0
    ∷ works true 0
    ∷ works true 0
    ∷ works true 0
    ∷ works true 0
    ∷ works true 0
    ∷ []

abbrev worked : ThreadPool
worked = run busy (make_pool 2)

-- The worker has run task 7 and counted it off before it was counted: `leftover_` is 1 while a task
-- is in the queue and one push is to be counted.
busy-run : (worked.finished ≡ 7 ∷ []) × (worked.queue ≡ 8 ∷ []) × (worked.leftover ≡ 0)
unfolding run make_pool
busy-run = (refl, refl, refl)

busy-InRange : All (InRange 2) busy
busy-InRange = ground arith

run-active_threads_example : get_thread_count worked ≡ total is_active 2 worked.workers % 2 ^ 64
run-active_threads_example = run-active_threads 2 2 busy busy-InRange

run-tasks_left_example :
    (get_tasks_left worked + total is_uncounted 2 worked.clients) % 2 ^ 64
    ≡ (length worked.queue + total has_task 2 worked.workers + is_discounting worked.destructor)
      % 2 ^ 64
run-tasks_left_example = run-tasks_left 2 2 busy busy-InRange

run-conserved_example :
    count 7 worked.accepted
    ≡ count 7 worked.queue
      + total (carries 7) 2 worked.workers
      + count 7 worked.finished
      + count 7 worked.discarded
run-conserved_example = run-conserved 2 2 7 busy busy-InRange

-- The pool is stopped while one worker is about to compare the counters.
abbrev stopped : ThreadPool
stopped = record worked { stop = true }

abbrev twelve_steps : List Event
twelve_steps =
    works true 0
    ∷ works true 0
    ∷ works true 0
    ∷ works true 0
    ∷ works true 0
    ∷ works true 0
    ∷ works true 0
    ∷ works true 0
    ∷ works true 0
    ∷ works true 0
    ∷ works true 0
    ∷ works true 0
    ∷ []

abbrev twelve_steps_of_1 : List Event
twelve_steps_of_1 =
    works true 1
    ∷ works true 1
    ∷ works true 1
    ∷ works true 1
    ∷ works true 1
    ∷ works true 1
    ∷ works true 1
    ∷ works true 1
    ∷ works true 1
    ∷ works true 1
    ∷ works true 1
    ∷ works true 1
    ∷ []

stopped_worker-exited_example : (run twelve_steps stopped).workers 0 ≡ exited
unfolding run make_pool tally is_step_of
stopped_worker-exited_example =
    stopped_worker-exited 0 twelve_steps stopped refl (omega arith) (omega arith)

-- A client that comes after the stop is refused.
abbrev late : List Event
late = enqueues 0 9 ∷ steps true 0 ∷ steps true 0 ∷ []

late-admitted : admitted 2 (run late stopped) ≤ admitted 2 stopped
late-admitted =
    stopped_pool-admitted 2 late stopped refl (omega arith, (omega arith, (omega arith, tt)))

-- The client 1 has counted its task as well, and the queue holds task 8.
abbrev told : List Event
told = busy ++ steps true 1 ∷ steps true 1 ∷ []

told-InRange : All (InRange 2) told
told-InRange = ground arith

told-AreTimely : AreTimely told (make_pool 2)
unfolding AreTimely overruns step make_pool
told-AreTimely = ground arith

run-Serves_example : Serves 0 8 9 (run told (make_pool 2))
unfolding run make_pool is_staying is_signalling is_popping total
run-Serves_example =
    run-Serves 2 2 0 8 [] told told-InRange told-AreTimely refl (omega arith) refl (omega arith)
      refl refl refl

-- Two clients push a task each before a worker waits: the second release is one too many.
abbrev push_by : ℕ → List Event
push_by c = enqueues c 7 ∷ steps true c ∷ steps true c ∷ steps true c ∷ []

second_release :
    overruns (steps true 1) (run (push_by 0 ++ steps true 0 ∷ push_by 1) (make_pool 2)) ≡ true
unfolding overruns run step make_pool
second_release = refl

-- Each of the two workers makes twelve steps while the destructor runs.
abbrev leaving : List Event
leaving = twelve_steps ++ twelve_steps_of_1

leaving-IsDestroying : All (IsDestroying 2) leaving
leaving-IsDestroying = ground arith

below_two : (i : ℕ) → i < 2 → (i ≡ 0) ⊎ (i ≡ 1)
below_two i h = ground arith

leaving-enough : (i : ℕ) → i < 2 → 12 ≤ tally (is_step_of i) leaving
unfolding tally is_step_of
leaving-enough i h = elim (below_two i h) [
  | inl zeroth ↦ rw zeroth (omega arith)
  | inr first ↦ rw first (omega arith)
]

abbrev left : ThreadPool
left = run leaving (step destroys (run told (make_pool 2)))

-- Task 7 has run, and the destructor throws task 8 away.
left-run :
    let e = run (goes_on 6) left in
    (e.destructor ≡ returned) × (e.finished ≡ 7 ∷ []) × (e.discarded ≡ 8 ∷ [])
unfolding run make_pool goes_on
left-run = (refl, refl, refl)

destroyed_pool-returns_example :
    (r : ℕ) × (r ≤ 2 * length left.queue + 4)
    × ((run (goes_on r) left).destructor ≡ returned)
    × Settled 2 7 (run (goes_on r) left)
unfolding run make_pool is_pushing total
destroyed_pool-returns_example =
    destroyed_pool-returns 2 2 7 told leaving told-InRange leaving-IsDestroying refl refl
      leaving-enough
