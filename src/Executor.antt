-- ===== src/Executor.antt =====
-- src/worker/task-executor/{include/task_executor.hpp,src/task_executor.cpp}: the worker's executor
-- with the timers of its io_context. Tasks are shared objects, named by numbers. The pool threads
-- and the io thread interleave at the granularity of `Event`.
pub mod Timeout
pub mod Run
pub mod Counts
pub mod Kept
pub mod Taken
pub mod Invariant
pub mod Settled
pub mod Overwrite
pub mod Fib
pub mod Builtin
pub mod Pooled
mod Tests
use Prim.Native.String.{String}
use tiny_reactor.Base.{
  ℕ, zero, suc, ◌+◌, ◌-◌, ◌*◌, ◌/◌, ◌%◌, ◌^◌, Bool, true, false, not, ◌&&◌, ◌||◌, Option, none,
  some, List, [], ◌∷◌, ◌++◌, ltb, leb, ◌==◌, if◌then◌else◌, min, select, update,
}
use tiny_reactor.Base.Int.{ℤ, pos, negsuc, to_int64, of_int64}
use text.Mathlib.Text.{◌==◌ as str_eq}
use Prim.Native.String.{◌++◌ as concat}
use tiny_reactor.Task.JsonValue.{Json}
use tiny_reactor.Task.{Task, TaskState, Resource}

-- `boost::system::error_code`, as far as the code tells its values apart.
pub data ErrorCode : Type 0 where
  no_error connection_refused host_unreachable operation_aborted : ErrorCode
  other_error : ℕ → ErrorCode

-- What a task function does: it returns, or throws an exception with a text and, if it is a
-- `boost::system::system_error`, a code.
pub data Outcome : Type 0 where
  returns : Json → Outcome
  throws : ErrorCode → String → Outcome

-- A function sees its parameters and the values that its loads of the cancellation flag give.
abbrev pub TaskFunction : Type 0
TaskFunction = Json → (ℕ → Bool) → Outcome

pub data TimerKind : Type 0 where
  exec_timer retry_timer : TimerKind

-- A timer whose time has come has its handler queued; from then on `cancel` comes too late.
pub record Timer : Type 0 where
  pub id : ℕ
  pub task : ℕ
  pub kind : TimerKind
  pub delay_ms : ℕ
  pub expired : Bool

pub record TaskExecutor : Type 0 where
  pub functions : List (String × TaskFunction)
  pub available_resources : Resource
  pub retrying_cnt : ℕ
  pub tasks : ℕ → Task
  pub queue : List ℕ  -- the tasks in the pool's queue
  pub running : List (ℕ × ℕ)  -- the tasks whose function runs, with their timers
  pub refused : List ℕ  -- the tasks that found the quota full and still count in `retrying_cnt`
  pub resubmitting : List ℕ  -- the tasks whose retry handler is about to call `execute_task`
  pub timers : List Timer
  pub next_timer : ℕ
  pub clock : ℕ  -- the steady clock, in nanoseconds

-- `get_current_timestamp_ms` of src/common/include/utils.hpp, as a `uint64_t`.
unfoldable pub get_current_timestamp_ms : ℕ → ℕ
get_current_timestamp_ms clock = clock / 1000000 % 2 ^ 64

abbrev pub max_concurrent_retry : ℕ
max_concurrent_retry = 10

-- `functions_[func_name] = func`.
pub put_function :
    String → TaskFunction → List (String × TaskFunction) → List (String × TaskFunction)
put_function k f [] = (k, f) ∷ []
put_function k f ((j, g) ∷ fs) = if str_eq j k then (j, f) ∷ fs else (j, g) ∷ put_function k f fs

pub register_function : String → TaskFunction → TaskExecutor → TaskExecutor
unfolding put_function
register_function k f e = record e { functions = put_function k f e.functions }

pub find_function : String → List (String × TaskFunction) → Option TaskFunction
find_function k [] = none
find_function k ((j, f) ∷ fs) = if str_eq j k then some f else find_function k fs

-- `execute_task`. The executor's pool is stopped only when the executor is destroyed, so `enqueue`
-- does not throw.
pub execute_task : ℕ → TaskExecutor → TaskExecutor
execute_task k e = record e { queue = e.queue ++ k ∷ [] }

-- The order of doubles is a parameter.
pub check_resources : (ℕ → ℕ → Bool) → Resource → TaskExecutor → Bool
check_resources double_le r e =
    double_le r.cpu_core e.available_resources.cpu_core && leb r.mem_mb e.available_resources.mem_mb

pub update_task_state : ℕ → TaskState → Json → String → TaskExecutor → TaskExecutor
update_task_state k s result error e = record e {
  tasks = update e.tasks k (record (e.tasks k) {
    state = s;
    result = result;
    error_msg = error;
    finish_ts = to_int64 (get_current_timestamp_ms e.clock);
  });
}

pub is_retryable_error : ErrorCode → Bool
is_retryable_error connection_refused = true
is_retryable_error host_unreachable = true
is_retryable_error operation_aborted = true
is_retryable_error _ = false

-- `task->timeout_ms - (now_ms - task->submit_ts)` in `uint64_t`, read as an `int64_t`.
unfoldable pub remaining_timeout : Task → ℕ → ℤ
remaining_timeout t now =
    to_int64 ((t.timeout_ms + 2 ^ 64 - (now + 2 ^ 64 - of_int64 t.submit_ts) % 2 ^ 64) % 2 ^ 64)

pub add_timer : ℕ → TimerKind → ℕ → TaskExecutor → TaskExecutor
add_timer k kind delay e = record e {
  timers =
      record { id = e.next_timer; task = k; kind = kind; delay_ms = delay; expired = false }
      ∷ e.timers;
  next_timer = suc e.next_timer;
}

-- `cancel` of a timer: a handler that is queued already runs all the same.
pub cancel_timer : ℕ → TaskExecutor → TaskExecutor
cancel_timer i e = record e { timers = select (λ t. not (t.id == i) || t.expired) e.timers }

-- The timer of a task that runs, its start time, and its state.
pub start_task : ℕ → ℕ → TaskExecutor → TaskExecutor
unfolding add_timer update_task_state
start_task k remaining e =
    let armed : TaskExecutor = add_timer k exec_timer remaining e in
    let stamped : TaskExecutor = record armed {
      tasks =
          update armed.tasks k
            (record (armed.tasks k) { start_ts = to_int64 (get_current_timestamp_ms e.clock) });
      running = (k, e.next_timer) ∷ armed.running;
    } in
    update_task_state k TaskState.running Json.null "" stamped

-- `run_task` up to the call of the function, on a task that was taken off the queue.
pub begin_task : (ℕ → ℕ → Bool) → ℕ → TaskExecutor → TaskExecutor
unfolding check_resources update_task_state remaining_timeout start_task
begin_task double_le k e =
    if not (check_resources double_le (e.tasks k).required e)
    then update_task_state k TaskState.failed Json.null "Insufficient resources" e
    else elim (remaining_timeout (e.tasks k) (get_current_timestamp_ms e.clock)) [
      | negsuc _ ↦ update_task_state k TaskState.timeout Json.null "Execution timeout" e
      | pos r ↦ start_task k r e
    ]

-- What the look-up and the call come to: an unknown function is an exception as well.
pub call_function : ℕ → (ℕ → Bool) → TaskExecutor → Outcome
unfolding find_function
call_function k flags e = elim (find_function (e.tasks k).func_name e.functions) [
  | none ↦ throws no_error (concat "Unknown function: " (e.tasks k).func_name)
  | some f ↦ f (e.tasks k).func_params flags
]

-- `std::chrono::seconds(1 << std::min(task->retry_count, 4u))`, in milliseconds.
pub retry_delay : ℕ → ℕ
retry_delay retry_count = 2 ^ min retry_count 4 * 1000

-- The check of the quota: `fetch_add`, and the retry or, later, `give_back`.
pub ask_quota : ℕ → TaskExecutor → TaskExecutor
unfolding add_timer retry_delay
ask_quota k e =
    let added : TaskExecutor = record e { retrying_cnt = e.retrying_cnt + 1 } in
    if leb max_concurrent_retry e.retrying_cnt
    then record added { refused = k ∷ e.refused }
    else add_timer k retry_timer (retry_delay (e.tasks k).retry_count) added

-- `fetch_sub`, and the failure of a task that found the quota full.
pub give_back : ℕ → TaskExecutor → TaskExecutor
unfolding update_task_state
give_back k e =
    update_task_state k TaskState.failed Json.null "Retry quota full"
      (record e { retrying_cnt = e.retrying_cnt - 1 })

-- The `catch` block.
pub handle_exception : ℕ → ℕ → ErrorCode → String → TaskExecutor → TaskExecutor
unfolding is_retryable_error update_task_state cancel_timer ask_quota
handle_exception k timer code what e =
    if is_retryable_error code && ltb (e.tasks k).retry_count (e.tasks k).max_retry
    then ask_quota k e
    else cancel_timer timer
        (update_task_state k TaskState.failed Json.null (concat "Execution failed: " what) e)

-- `run_task` from the end of the function on.
pub finish_task : ℕ → ℕ → Outcome → TaskExecutor → TaskExecutor
unfolding handle_exception update_task_state cancel_timer
finish_task k timer (returns r) e =
    cancel_timer timer (update_task_state k TaskState.success r "" e)
finish_task k timer (throws code what) e = handle_exception k timer code what e

-- The handlers of the two kinds of timers, on a timer that was taken off the list; that of a retry
-- up to its call of `execute_task`.
pub on_timer : Timer → TimerKind → TaskExecutor → TaskExecutor
unfolding update_task_state
on_timer t exec_timer e =
    update_task_state t.task TaskState.timeout Json.null "Execution timeout"
      (record e { tasks = update e.tasks t.task (record (e.tasks t.task) { cancelled = true }) })
on_timer t retry_timer e = record e {
  retrying_cnt = e.retrying_cnt - 1;
  tasks =
      update e.tasks t.task
        (record (e.tasks t.task) { retry_count = ((e.tasks t.task).retry_count + 1) % 2 ^ 32 });
  resubmitting = t.task ∷ e.resubmitting;
}

pub take_task : ℕ → List ℕ → Option (List ℕ)
take_task k [] = none
take_task k (j ∷ js) =
    let rest = take_task k js in
    if j == k then some js else elim rest [ none ↦ none | some ks ↦ some (j ∷ ks) ]

pub take_running : ℕ → List (ℕ × ℕ) → Option (ℕ × List (ℕ × ℕ))
take_running k [] = none
take_running k ((j, i) ∷ rs) =
    let rest = take_running k rs in
    if j == k
    then some (i, rs)
    else elim rest [ none ↦ none | some (m, qs) ↦ some (m, (j, i) ∷ qs) ]

pub take_expired : ℕ → List Timer → Option (Timer × List Timer)
take_expired i [] = none
take_expired i (t ∷ ts) =
    let rest = take_expired i ts in
    if t.id == i && t.expired
    then some (t, ts)
    else elim rest [ none ↦ none | some (u, us) ↦ some (u, t ∷ us) ]

pub expire : ℕ → List Timer → List Timer
expire i [] = []
expire i (t ∷ ts) = (if t.id == i then record t { expired = true } else t) ∷ expire i ts

-- What can happen next: a client submits a task, a pool thread takes the first task of the queue, the
-- function of a task ends, a task that was refused a retry is taken off the count, the time of a timer
-- comes, the io thread runs a queued handler, a handler submits its task again, or time passes. An
-- event that has nothing to act on changes nothing.
pub data Event : Type 0 where
  submits gives_back resubmits : ℕ → Event
  begins : Event
  ends : ℕ → (ℕ → Bool) → Event
  expires fires passes : ℕ → Event

pub begin_next : (ℕ → ℕ → Bool) → List ℕ → TaskExecutor → TaskExecutor
unfolding begin_task
begin_next double_le [] e = e
begin_next double_le (k ∷ ks) e = begin_task double_le k (record e { queue = ks })

pub step : (ℕ → ℕ → Bool) → Event → TaskExecutor → TaskExecutor
unfolding execute_task begin_next call_function finish_task take_running take_expired expire
    on_timer take_task give_back
step le (submits k) e = execute_task k e
step le begins e = begin_next le e.queue e
step le (ends k flags) e = elim (take_running k e.running) [
  | none ↦ e
  | some (timer, rest) ↦ finish_task k timer (call_function k flags e) (record e { running = rest })
]
step le (gives_back k) e = elim (take_task k e.refused) [
  | none ↦ e
  | some rest ↦ give_back k (record e { refused = rest })
]
step le (resubmits k) e = elim (take_task k e.resubmitting) [
  | none ↦ e
  | some rest ↦ execute_task k (record e { resubmitting = rest })
]
step le (expires i) e = record e { timers = expire i e.timers }
step le (fires i) e = elim (take_expired i e.timers) [
  | none ↦ e
  | some (t, rest) ↦ on_timer t t.kind (record e { timers = rest })
]
step le (passes n) e = record e { clock = e.clock + n }

pub run : (ℕ → ℕ → Bool) → List Event → TaskExecutor → TaskExecutor
unfolding step
run le [] e = e
run le (v ∷ vs) e = run le vs (step le v e)
