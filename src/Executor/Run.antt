-- ===== src/Executor/Run.antt =====
-- task_executor.cpp: the outcomes of `run_task` before and after the function runs.
use Prim.Native.String.{String}
use tiny_reactor.Base.{
  ℕ, zero, suc, ◌+◌, ◌-◌, ◌≤◌, ◌<◌, ◌≡◌, refl, sym, subst, ◌⊎◌, inl, inr, Bool, true, false, ◌&&◌,
  ◌∷◌, ltb, leb, arith, Bool-cases,
}
use tiny_reactor.Base.Int.{pos, negsuc}
use tiny_reactor.Task.JsonValue.{Json}
use tiny_reactor.Task.{running, failed, timeout}
use tiny_reactor.Executor.{
  get_current_timestamp_ms, TaskExecutor, exec_timer, retry_timer, check_resources,
  remaining_timeout, start_task, update_task_state, begin_task, handle_exception, ask_quota,
  give_back, ErrorCode, no_error, connection_refused, host_unreachable, operation_aborted,
  other_error, is_retryable_error, retry_delay, max_concurrent_retry,
}

-- `begin_task` by its branches, with the callees shut.
pub begin_task-refused :
    (double_le : ℕ → ℕ → Bool) (k : ℕ) (e : TaskExecutor)
    → check_resources double_le (e.tasks k).required e ≡ false
    → begin_task double_le k e ≡ update_task_state k failed Json.null "Insufficient resources" e
unfolding begin_task
begin_task-refused double_le k e h = ground arith

pub begin_task-late :
    (double_le : ℕ → ℕ → Bool) (k : ℕ) (e : TaskExecutor) (m : ℕ)
    → check_resources double_le (e.tasks k).required e ≡ true
    → remaining_timeout (e.tasks k) (get_current_timestamp_ms e.clock) ≡ negsuc m
    → begin_task double_le k e ≡ update_task_state k timeout Json.null "Execution timeout" e
unfolding begin_task
begin_task-late double_le k e m h r = ground arith

pub begin_task-started :
    (double_le : ℕ → ℕ → Bool) (k : ℕ) (e : TaskExecutor) (r : ℕ)
    → check_resources double_le (e.tasks k).required e ≡ true
    → remaining_timeout (e.tasks k) (get_current_timestamp_ms e.clock) ≡ pos r
    → begin_task double_le k e ≡ start_task k r e
unfolding begin_task
begin_task-started double_le k e r h q = ground arith

-- The three ways out of the first part of `run_task`, in terms of exact times.
pub data Began (double_le : ℕ → ℕ → Bool) (k submit : ℕ) (e e' : TaskExecutor) : Type 0 where
  refused :
      check_resources double_le (e.tasks k).required e ≡ false
      → (e'.tasks k).state ≡ failed
      → (e'.tasks k).error_msg ≡ "Insufficient resources"
      → e'.timers ≡ e.timers
      → e'.running ≡ e.running
      → Began double_le k submit e e'
  late :
      check_resources double_le (e.tasks k).required e ≡ true
      → (e.tasks k).timeout_ms + submit < (get_current_timestamp_ms e.clock)
      → (e'.tasks k).state ≡ timeout
      → (e'.tasks k).error_msg ≡ "Execution timeout"
      → e'.timers ≡ e.timers
      → e'.running ≡ e.running
      → Began double_le k submit e e'
  started :
      check_resources double_le (e.tasks k).required e ≡ true
      → (get_current_timestamp_ms e.clock) ≤ (e.tasks k).timeout_ms + submit
      → (e'.tasks k).state ≡ running
      → e'.timers
        ≡ record {
          id = e.next_timer;
          task = k;
          kind = exec_timer;
          delay_ms = (e.tasks k).timeout_ms + submit - (get_current_timestamp_ms e.clock);
          expired = false;
        }
          ∷ e.timers
      → e'.running ≡ (k, e.next_timer) ∷ e.running
      → Began double_le k submit e e'

-- The errors that deserve a retry, and the delay in milliseconds before the next one.
pub data IsRetryable : ErrorCode → Type 0 where
  refused_connection : IsRetryable connection_refused
  unreachable_host : IsRetryable host_unreachable
  aborted : IsRetryable operation_aborted

pub data Delay : ℕ → ℕ → Type 0 where
  second : Delay 0 1000
  two_seconds : Delay 1 2000
  four_seconds : Delay 2 4000
  eight_seconds : Delay 3 8000
  longest : {n : ℕ} → 4 ≤ n → Delay n 16000

is_retryable_error-IsRetryable :
    (code : ErrorCode) → is_retryable_error code ≡ true → IsRetryable code
unfolding is_retryable_error
is_retryable_error-IsRetryable connection_refused h = refused_connection
is_retryable_error-IsRetryable host_unreachable h = unreachable_host
is_retryable_error-IsRetryable operation_aborted h = aborted
is_retryable_error-IsRetryable no_error h = ground arith
is_retryable_error-IsRetryable (other_error n) h = ground arith

is_retryable_error-refused :
    (code : ErrorCode) → is_retryable_error code ≡ false → ¬ IsRetryable code
unfolding is_retryable_error
is_retryable_error-refused connection_refused h refused_connection = ground arith
is_retryable_error-refused host_unreachable h unreachable_host = ground arith
is_retryable_error-refused operation_aborted h aborted = ground arith
is_retryable_error-refused no_error h x = elim x [ ]
is_retryable_error-refused (other_error n) h x = elim x [ ]

retry_delay-Delay : (n : ℕ) → Delay n (retry_delay n)
unfolding retry_delay
retry_delay-Delay zero = second
retry_delay-Delay (suc zero) = two_seconds
retry_delay-Delay (suc (suc zero)) = four_seconds
retry_delay-Delay (suc (suc (suc zero))) = eight_seconds
retry_delay-Delay (suc (suc (suc (suc n)))) =
    let most : retry_delay (suc (suc (suc (suc n)))) ≡ 16000 = ground arith in
    subst (Delay (suc (suc (suc (suc n))))) (sym most) (longest (omega arith))

-- What the `catch` block does with a task of index `k` whose function threw.
pub data Caught (k : ℕ) (code : ErrorCode) (e e' : TaskExecutor) : Type 0 where
  retries :
      {delay : ℕ}
      → IsRetryable code
      → Delay (e.tasks k).retry_count delay
      → (e.tasks k).retry_count < (e.tasks k).max_retry
      → e.retrying_cnt < 10
      → e'.tasks ≡ e.tasks
      → e'.retrying_cnt ≡ e.retrying_cnt + 1
      → e'.timers
        ≡ record {
          id = e.next_timer;
          task = k;
          kind = retry_timer;
          delay_ms = delay;
          expired = false;
        }
          ∷ e.timers
      → Caught k code e e'
  quota_full :
      IsRetryable code
      → (e.tasks k).retry_count < (e.tasks k).max_retry
      → 10 ≤ e.retrying_cnt
      → e'.refused ≡ k ∷ e.refused
      → e'.timers ≡ e.timers
      → ((give_back k e').tasks k).state ≡ failed
      → ((give_back k e').tasks k).error_msg ≡ "Retry quota full"
      → (give_back k e').retrying_cnt ≡ e.retrying_cnt
      → Caught k code e e'
  gives_up :
      (¬ IsRetryable code) ⊎ ((e.tasks k).max_retry ≤ (e.tasks k).retry_count)
      → (e'.tasks k).state ≡ failed
      → e'.retrying_cnt ≡ e.retrying_cnt
      → Caught k code e e'

stops :
    (code : ErrorCode) (m n : ℕ)
    → (is_retryable_error code && ltb m n) ≡ false
    → (¬ IsRetryable code) ⊎ (n ≤ m)
stops code m n h = elim (Bool-cases (is_retryable_error code)) [
  | inl again ↦ inr (ground arith)
  | inr never ↦ inl (is_retryable_error-refused code never)
]

-- A task is retried exactly if its error is a refused connection, an unreachable host or an aborted
-- operation, its retries are not used up, and `retrying_cnt` is below ten: after 1, 2, 4 and 8
-- seconds for the first four retries, and after 16 for each further one. If only the quota is used
-- up, its timer is left running, and it fails for want of quota once it is taken off the count
-- again. Otherwise it fails at once.
pub handle_exception-Caught :
    (k timer : ℕ) (code : ErrorCode) (what : String) (e : TaskExecutor)
    → Caught k code e (handle_exception k timer code what e)
unfolding handle_exception ask_quota give_back
handle_exception-Caught k timer code what e =
    elim (Bool-cases
      (is_retryable_error code && ltb (e.tasks k).retry_count (e.tasks k).max_retry)) [
        | inl again ↦ elim (Bool-cases (leb max_concurrent_retry e.retrying_cnt)) [
          | inl full ↦
              rw (again, full, handle_exception)
                (quota_full (is_retryable_error-IsRetryable code (ground arith)) (ground arith)
                  (ground arith) refl refl (ground arith) (ground arith) (ground arith))
          | inr room ↦
              rw (again, room, handle_exception)
                (retries (is_retryable_error-IsRetryable code (ground arith)) (retry_delay-Delay _)
                  (ground arith) (ground arith) refl refl refl)
        ]
        | inr never ↦
            rw (never, handle_exception) (gives_up (stops code _ _ never) (ground arith) refl)
      ]
