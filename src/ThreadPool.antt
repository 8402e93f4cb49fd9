-- ===== src/ThreadPool.antt =====
-- src/common/include/thread_pool.hpp and src/common/src/thread_pool.cpp: the pool with its worker
-- threads and its clients. A task is a number. A step of a thread is one access to the atomics, the
-- queue or the semaphore, and the steps of the threads interleave.
pub mod Measures
pub mod WorkerMoves
pub mod Moves
pub mod Accounting
pub mod Stopping
pub mod Refusing
pub mod Wakeups
pub mod Turns
pub mod Serving
pub mod Unstarted
pub mod Destroying
pub mod Destroyed
pub mod Joining
pub mod Returning
mod Tests
use tiny_reactor.Base.{
  min, ℕ, zero, suc, ◌+◌, ◌-◌, ◌%◌, ◌^◌, Bool, true, false, ◌&&◌, List, [], ◌∷◌, ◌++◌, ltb, ◌==◌,
  if◌then◌else◌, update,
}

-- Where a thread stands in `worker`. `weighs` holds the number it has loaded, `exchanges` and `swaps`
-- hold the local `old`.
pub data Worker : Type 0 where
  starting loops waits pops uncounts compares claims naps leaves exited : Worker
  executes weighs exchanges swaps : ℕ → Worker

-- Where a client stands in `enqueue` or `remove_threads`; `refused` has thrown "pool stopped".
pub data Client : Type 0 where
  idle refused counts releases : Client
  checks pushes rechecks loads stores : ℕ → Client

-- Where the destructor stands.
pub data Destructor : Type 0 where
  not_called frees drains discounts joins returned : Destructor

-- The atomics are 64 bits wide. `threads` is the length of `threads_`. The last three fields log the
-- tasks that were pushed, that ran to their end, and that the destructor threw away.
pub record ThreadPool : Type 0 where
  pub queue : List ℕ
  pub threads : ℕ
  pub stop : Bool
  pub active_threads : ℕ
  pub target_thread_count : ℕ
  pub task_sem : ℕ
  pub leftover : ℕ
  pub workers : ℕ → Worker
  pub clients : ℕ → Client
  pub destructor : Destructor
  pub accepted : List ℕ
  pub finished : List ℕ
  pub discarded : List ℕ

-- The constructor, for fewer than 2 ^ 64 threads.
unfoldable pub make_pool : ℕ → ThreadPool
make_pool num_threads = record {
  queue = [];
  threads = num_threads;
  stop = false;
  active_threads = 0;
  target_thread_count = num_threads;
  task_sem = 0;
  leftover = 0;
  workers = λ _. starting;
  clients = λ _. idle;
  destructor = not_called;
  accepted = [];
  finished = [];
  discarded = [];
}

-- `fetch_add(1)`, and `fetch_sub(1)` or `old - 1`, of a 64-bit number.
abbrev pub increment : ℕ → ℕ
increment x = (x + 1) % 2 ^ 64

abbrev pub decrement : ℕ → ℕ
decrement x = (x + (2 ^ 64 - 1)) % 2 ^ 64

abbrev pub become : ℕ → Worker → ThreadPool → ThreadPool
become i w d = record d { workers = update d.workers i w }

abbrev pub answer : ℕ → Client → ThreadPool → ThreadPool
answer c w d = record d { clients = update d.clients c w }

unfoldable pub pop_task : ℕ → List ℕ → ThreadPool → ThreadPool
pop_task i [] d = become i compares d
pop_task i (k ∷ ks) d = become i (executes k) (record d { queue = ks })

unfoldable pub try_acquire : Bool → ℕ → ThreadPool → ThreadPool
try_acquire true i d =
    if ltb 0 d.task_sem
    then become i pops (record d { task_sem = d.task_sem - 1 })
    else become i compares d
try_acquire false i d = become i compares d

-- One step of `worker`, in the thread `i`. `acquired` tells whether a wait for the semaphore ends
-- before its 200 ms are over; the nap of 50 ms changes nothing.
unfoldable pub worker_step : (acquired : Bool) → ℕ → Worker → ThreadPool → ThreadPool
unfolding pop_task try_acquire
worker_step acquired i starting d =
    become i loops (record d { active_threads = increment d.active_threads })
worker_step acquired i loops d = become i (if d.stop then leaves else waits) d
worker_step acquired i waits d = try_acquire acquired i d
worker_step acquired i pops d = pop_task i d.queue d
worker_step acquired i (executes k) d = become i uncounts (record d { finished = k ∷ d.finished })
worker_step acquired i uncounts d = become i compares (record d { leftover = decrement d.leftover })
worker_step acquired i compares d = become i (weighs d.active_threads) d
worker_step acquired i (weighs active) d =
    become i (if ltb d.target_thread_count active then claims else loops) d
worker_step acquired i claims d = become i (exchanges d.active_threads) d
worker_step acquired i (exchanges old) d =
    become i (if ltb d.target_thread_count old then swaps old else naps) d
worker_step acquired i (swaps old) d =
    if d.active_threads == old
    then become i exited (record d { active_threads = decrement old })
    else become i naps d
worker_step acquired i naps d = become i loops d
worker_step acquired i leaves d =
    become i exited (record d { active_threads = decrement d.active_threads })
worker_step acquired i exited d = d

-- The two steps of `remove_threads`.
abbrev pub lower_target : ℕ → ℕ → ThreadPool → ThreadPool
lower_target c n d =
    answer c (stores (if ltb n d.target_thread_count then d.target_thread_count - n else 0)) d

abbrev pub store_target : ℕ → ℕ → ThreadPool → ThreadPool
store_target c n d = answer c idle (record d { target_thread_count = n })

-- `task_sem` is a binary semaphore: it counts to one. What a release beyond that does is undefined;
-- here it has no effect, and `overruns` tells when one is made.
abbrev pub released : ℕ → ℕ → ℕ
released n sem = min 1 (sem + n)

-- One step of a client. `pushed` tells whether the queue takes the task.
unfoldable pub client_step : (pushed : Bool) → ℕ → Client → ThreadPool → ThreadPool
client_step pushed c idle d = d
client_step pushed c refused d = d
client_step pushed c (checks k) d = answer c (if d.stop then refused else pushes k) d
client_step true c (pushes k) d =
    answer c counts (record d { queue = d.queue ++ k ∷ []; accepted = k ∷ d.accepted })
client_step false c (pushes k) d = answer c (rechecks k) d
client_step pushed c (rechecks k) d = answer c (if d.stop then refused else pushes k) d
client_step pushed c counts d = answer c releases (record d { leftover = increment d.leftover })
client_step pushed c releases d = answer c idle (record d { task_sem = released 1 d.task_sem })
client_step pushed c (loads n) d = lower_target c n d
client_step pushed c (stores n) d = store_target c n d

-- A client that is in no call begins one.
unfoldable pub begin_call : ℕ → Client → Client → ThreadPool → ThreadPool
begin_call c call idle d = answer c call d
begin_call c call refused d = answer c call d
begin_call c call _ d = d

unfoldable pub add_threads : ℕ → ThreadPool → ThreadPool
add_threads n d = record d {
  target_thread_count = (d.target_thread_count + n) % 2 ^ 64;
  threads = d.threads + n;
}

unfoldable pub shutdown : ThreadPool → ThreadPool
shutdown d = record d { stop = true }

-- A `pop` of the destructor.
unfoldable pub drain : List ℕ → ThreadPool → ThreadPool
drain [] d = record d { destructor = joins }
drain (k ∷ ks) d = record d { queue = ks; discarded = k ∷ d.discarded; destructor = discounts }

unfoldable pub has_exited : Worker → Bool
has_exited exited = true
has_exited _ = false

unfoldable pub all_exited : ℕ → (ℕ → Worker) → Bool
unfolding has_exited
all_exited zero workers = true
all_exited (suc i) workers = let rest = all_exited i workers in has_exited (workers i) && rest

-- One step of the destructor, with the join of the threads at its end.
unfoldable pub destroy_step : Destructor → ThreadPool → ThreadPool
unfolding drain all_exited
destroy_step not_called d = record d { stop = true; destructor = frees }
destroy_step frees d = record d { task_sem = released d.threads d.task_sem; destructor = drains }
destroy_step drains d = drain d.queue d
destroy_step discounts d = record d { leftover = decrement d.leftover; destructor = drains }
destroy_step joins d =
    if all_exited d.threads d.workers then record d { destructor = returned } else d
destroy_step returned d = d

abbrev pub get_thread_count : ThreadPool → ℕ
get_thread_count d = d.active_threads

abbrev pub get_tasks_left : ThreadPool → ℕ
get_tasks_left d = d.leftover

-- What can happen next.
pub data Event : Type 0 where
  works : (acquired : Bool) → (i : ℕ) → Event
  steps : (pushed : Bool) → (c : ℕ) → Event
  enqueues removes : (c k : ℕ) → Event
  adds : ℕ → Event
  shuts_down destroys : Event

unfoldable pub step : Event → ThreadPool → ThreadPool
unfolding worker_step client_step begin_call add_threads shutdown destroy_step
step (works acquired i) d = if ltb i d.threads then worker_step acquired i (d.workers i) d else d
step (steps pushed c) d = client_step pushed c (d.clients c) d
step (enqueues c k) d = begin_call c (checks k) (d.clients c) d
step (removes c n) d = begin_call c (loads n) (d.clients c) d
step (adds n) d = add_threads n d
step shuts_down d = shutdown d
step destroys d = destroy_step d.destructor d

-- Whether a client or the destructor is about to release the semaphore beyond its maximum.
unfoldable pub overruns_client : Client → ThreadPool → Bool
overruns_client releases d = ltb 1 (d.task_sem + 1)
overruns_client _ d = false

unfoldable pub overruns_destructor : Destructor → ThreadPool → Bool
overruns_destructor frees d = ltb 1 (d.task_sem + d.threads)
overruns_destructor _ d = false

unfoldable pub overruns : Event → ThreadPool → Bool
unfolding overruns_client overruns_destructor
overruns (steps pushed c) d = overruns_client (d.clients c) d
overruns destroys d = overruns_destructor d.destructor d
overruns _ d = false

unfoldable pub run : List Event → ThreadPool → ThreadPool
unfolding step
run [] d = d
run (v ∷ vs) d = run vs (step v d)
