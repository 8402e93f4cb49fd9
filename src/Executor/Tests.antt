-- ===== src/Executor/Tests.antt =====
-- task_executor.cpp: runs at concrete inputs.
use tiny_reactor.Base.{
  length, map, tally, ℕ, ◌+◌, ◌≤◌, ◌<◌, ◌≡◌, refl, Bool, true, false, List, [], ◌∷◌, leb, arith,
  ◌⊎◌, inl,
}
use Prim.Native.String.{String}
use tiny_reactor.Base.Int.{ℤ, pos}
use tiny_reactor.Task.JsonValue.{Json, string, number, int}
use tiny_reactor.Task.{Task, default_task, timeout, success, failed}
use tiny_reactor.Executor.{
  get_current_timestamp_ms, TaskExecutor, Timer, exec_timer, retry_timer, connection_refused,
  no_error, call_function, returns, throws, TaskFunction, handle_exception, finish_task, on_timer,
  Event, submits, begins, ends, expires, fires, resubmits, run,
}
use tiny_reactor.Executor.Run.{Caught, handle_exception-Caught}
use tiny_reactor.Executor.Counts.{places, waits, waiting}
use tiny_reactor.Executor.Invariant.{IsIdle, run-retries_bounded}
use tiny_reactor.Executor.Settled.{HasEnded, run-held_or_ended}
use tiny_reactor.Executor.Overwrite.{success_after_timeout}
use tiny_reactor.Executor.Builtin.{new_executor, result_json, finish_task-fib}
use tiny_reactor.Executor.Fib.{fib, fib_result, undefined, fibonacci}

-- A function that returns, and one that cannot reach its server.
abbrev answers : TaskFunction
answers params flags = returns (string "done")

abbrev refuses : TaskFunction
refuses params flags = throws connection_refused "refused"

abbrev sample_task : Task
sample_task = record default_task { func_name = "ask"; max_retry = 1; submit_ts = pos 1000 }

abbrev pub idle : TaskExecutor
idle = record {
  functions = ("ask", refuses) ∷ [];
  available_resources = record { cpu_core = 4; mem_mb = 8192 };
  retrying_cnt = 0;
  tasks = λ _. sample_task;
  queue = [];
  running = [];
  refused = [];
  resubmitting = [];
  timers = [];
  next_timer = 1;
  clock = 2000000000;
}

handle_exception-Caught_example :
    Caught 7 connection_refused idle (handle_exception 7 1 connection_refused "refused" idle)
handle_exception-Caught_example = handle_exception-Caught 7 1 connection_refused "refused" idle

-- The task is submitted and refused, waits for its retry, and is refused again.
abbrev pub quiet_flags : ℕ → Bool
quiet_flags _ = false

abbrev later : List Event
later =
    begins
    ∷ ends 7 quiet_flags
    ∷ expires 2
    ∷ fires 2
    ∷ resubmits 7
    ∷ begins
    ∷ ends 7 quiet_flags
    ∷ []

abbrev history : List Event
history = submits 7 ∷ later

history-run :
    (((run leb history idle).tasks 7).state ≡ failed)
    × (((run leb history idle).tasks 7).retry_count ≡ 1)
    × (((run leb history idle).tasks 7).error_msg ≡ "Execution failed: refused")
    × ((run leb history idle).retrying_cnt ≡ 0)
unfolding run get_current_timestamp_ms
history-run = (refl, refl, refl, refl)

pub idle-IsIdle : IsIdle idle
idle-IsIdle = record {
  queue = refl;
  running = refl;
  refused = refl;
  resubmitting = refl;
  timers = refl;
  retrying_cnt = refl;
  limits = λ k. omega arith;
  small = λ k. omega arith;
}

run-retries_bounded_example :
    let f = run leb history idle in
    (f.retrying_cnt ≡ waiting f + length f.refused)
    × (waiting f ≤ 10)
    × ((k : ℕ) → places k f ≤ 1)
    × ((k : ℕ) → (f.tasks k).retry_count + waits k f ≤ (f.tasks k).max_retry)
unfolding tally
run-retries_bounded_example =
    run-retries_bounded leb history idle idle-IsIdle
      (refl, (tt, (tt, (tt, (tt, (tt, (tt, (tt, tt))))))))

run-held_or_ended_example : let f = run leb history idle in (places 7 f ≡ 1) ⊎ HasEnded 7 f
unfolding tally
run-held_or_ended_example =
    run-held_or_ended leb [] later 7 idle idle-IsIdle
      (refl, (tt, (tt, (tt, (tt, (tt, (tt, (tt, tt))))))))

-- Ten retries wait, one of which is due; task 8 is refused and still counts. Then the handler of the
-- retry runs, and task 9 is refused although nine retries wait.
abbrev retry_of : ℕ → Timer
retry_of i = record { id = i; task = i; kind = retry_timer; delay_ms = 1000; expired = true }

abbrev crowded : TaskExecutor
crowded = record idle {
  retrying_cnt = 10;
  running = (8, 1) ∷ (9, 2) ∷ [];
  timers = map retry_of (10 ∷ 11 ∷ 12 ∷ 13 ∷ 14 ∷ 15 ∷ 16 ∷ 17 ∷ 18 ∷ 19 ∷ []);
}

crowded-run :
    let f = run leb (ends 8 quiet_flags ∷ fires 10 ∷ ends 9 quiet_flags ∷ []) crowded in
    (f.refused ≡ 9 ∷ 8 ∷ []) × (waiting f ≡ 9)
unfolding run tally
crowded-run = (refl, refl)

abbrev ringing : Timer
ringing = record { id = 1; task = 7; kind = exec_timer; delay_ms = 29000; expired = true }

ringing-run :
    let late = on_timer ringing exec_timer idle in
    let done = finish_task 7 1 (returns (string "cancelled")) late in
    ((late.tasks 7).state ≡ timeout)
    × ((late.tasks 7).cancelled ≡ true)
    × ((done.tasks 7).state ≡ success)
    × ((done.tasks 7).result ≡ string "cancelled")
    × ((done.tasks 7).cancelled ≡ true)
ringing-run = success_after_timeout ringing 1 (string "cancelled") idle

fib_ten : fib quiet_flags (pos 10) ≡ fib_result (pos 55)
unfolding fib
fib_ten = refl

fib_forty_seven : fib quiet_flags (pos 47) ≡ undefined
unfolding fib
fib_forty_seven = refl

-- The parameter of every call is 10.
abbrev ten : Json → ℤ ⊎ String
ten params = inl (pos 10)

abbrev fib_task : ℕ → Task
fib_task k = record default_task { func_name = "fib" }

finish_task-fib_example :
    let e = new_executor ten (throws no_error "") fib_task 0 in
    let call = call_function 3 quiet_flags e in
    let t = (finish_task 3 1 call e).tasks 3 in
    (10 ≤ 46 → (t.state ≡ success) × (t.result ≡ result_json (number (int (pos (fibonacci 10))))))
    × (46 < 10 → call ≡ throws no_error "")
unfolding new_executor
finish_task-fib_example =
    finish_task-fib ten (throws no_error "") 3 1 10 quiet_flags
      (new_executor ten (throws no_error "") fib_task 0) fib_task 0 refl refl refl (λ j a b. refl)
