-- ===== src/Executor/Overwrite.antt =====
-- task_executor.cpp: a handler or a function that comes late overwrites the outcome of a task.
use Prim.Native.String.{String}
use tiny_reactor.Base.{
  ℕ, ◌+◌, ◌-◌, refl, ◌≤◌, ◌<◌, ◌≡◌, Bool, true, false, List, [], ◌∷◌, some, leb, arith, ==_self, ap,
  ◌∙◌, lt→ltb,
}
use tiny_reactor.Task.JsonValue.{Json}
use tiny_reactor.Task.{failed, timeout, success}
use tiny_reactor.Executor.{
  TaskExecutor, Timer, exec_timer, ErrorCode, returns, throws, on_timer, finish_task,
  handle_exception, update_task_state, is_retryable_error, take_expired, expire, step, expires,
  fires, gives_back, give_back, take_task, ask_quota, run, max_concurrent_retry,
}

-- When the timer of a task runs out while its function runs, the task is marked cancelled and timed
-- out; when the function then returns, whatever it returns, the task succeeds with that result.
pub success_after_timeout :
    (t : Timer) (timer : ℕ) (r : Json) (e : TaskExecutor)
    → let late = on_timer t exec_timer e in
      let done = finish_task t.task timer (returns r) late in
      ((late.tasks t.task).state ≡ timeout)
      × ((late.tasks t.task).cancelled ≡ true)
      × ((done.tasks t.task).state ≡ success)
      × ((done.tasks t.task).result ≡ r)
      × ((done.tasks t.task).cancelled ≡ true)
unfolding on_timer finish_task
success_after_timeout t timer r e =
    (ground arith, ground arith, ground arith, ground arith, ground arith)

-- The executor when the task that was refused has failed.
abbrev without_quota : ℕ → TaskExecutor → TaskExecutor
without_quota k e =
    update_task_state k failed Json.null "Retry quota full"
      (record e { retrying_cnt = e.retrying_cnt + 1 - 1; refused = e.refused })

refused_lem :
    (k id : ℕ) (code : ErrorCode) (what : String) (e : TaskExecutor)
    → is_retryable_error code ≡ true
    → (e.tasks k).retry_count < (e.tasks k).max_retry
    → 10 ≤ e.retrying_cnt
    → finish_task k id (throws code what) e
      ≡ record e { retrying_cnt = e.retrying_cnt + 1; refused = k ∷ e.refused }
unfolding finish_task
refused_lem k id code what e again left many =
    rw (handle_exception, again, lt→ltb _ _ left, ask_quota, full) refl
  where
    full : leb max_concurrent_retry e.retrying_cnt ≡ true
    full = ground arith

gives_back_lem :
    (le : ℕ → ℕ → Bool) (k : ℕ) (rest : List ℕ) (e : TaskExecutor)
    → step le (gives_back k) (record e { refused = k ∷ rest })
      ≡ give_back k (record e { refused = rest })
unfolding take_task step give_back
gives_back_lem le k rest e = rw (step, ==_self k) refl

quota_full_lem :
    (le : ℕ → ℕ → Bool) (k id : ℕ) (code : ErrorCode) (what : String) (e : TaskExecutor)
    → is_retryable_error code ≡ true
    → (e.tasks k).retry_count < (e.tasks k).max_retry
    → 10 ≤ e.retrying_cnt
    → step le (gives_back k) (finish_task k id (throws code what) e) ≡ without_quota k e
unfolding give_back
quota_full_lem le k id code what e again left many =
    ap (step le (gives_back k)) (refused_lem k id code what e again left many)
    ∙ gives_back_lem le k e.refused (record e { retrying_cnt = e.retrying_cnt + 1 })

take_expired-expire :
    (id k delay : ℕ) (ts : List Timer)
    → take_expired id (
        expire id
          (record { id = id; task = k; kind = exec_timer; delay_ms = delay; expired = false } ∷ ts))
      ≡ some (
        record { id = id; task = k; kind = exec_timer; delay_ms = delay; expired = true },
        expire id ts,
      )
unfolding expire take_expired
take_expired-expire id k delay ts = rw (==_self id, ==_self id)

fires_lem :
    (le : ℕ → ℕ → Bool) (id k delay : ℕ) (ts : List Timer) (f : TaskExecutor)
    → f.timers
      ≡ record { id = id; task = k; kind = exec_timer; delay_ms = delay; expired = false } ∷ ts
    → run le (expires id ∷ fires id ∷ []) f
      ≡ on_timer
          (record { id = id; task = k; kind = exec_timer; delay_ms = delay; expired = true })
          exec_timer
          (record f { timers = expire id ts })
unfolding run
fires_lem le id k delay ts f armed =
    rw (step, ap (λ ts. take_expired id (expire id ts)) armed ∙ take_expired-expire id k delay ts)

-- A task that fails because ten others wait for a retry keeps its timer: when that runs out, the
-- failure is replaced by a timeout. The task has retries left, the error is retryable, and its
-- timer is the newest one.
pub timeout_after_quota_full :
    (k id delay : ℕ) (ts : List Timer) (code : ErrorCode) (what : String) (le : ℕ → ℕ → Bool)
    (e : TaskExecutor)
    → is_retryable_error code ≡ true
    → (e.tasks k).retry_count < (e.tasks k).max_retry
    → 10 ≤ e.retrying_cnt
    → e.timers
      ≡ record { id = id; task = k; kind = exec_timer; delay_ms = delay; expired = false } ∷ ts
    → let full = step le (gives_back k) (finish_task k id (throws code what) e) in
      let late = run le (expires id ∷ fires id ∷ []) full in
      ((full.tasks k).state ≡ failed)
      × ((full.tasks k).error_msg ≡ "Retry quota full")
      × ((late.tasks k).state ≡ timeout)
      × ((late.tasks k).error_msg ≡ "Execution timeout")
unfolding update_task_state on_timer
timeout_after_quota_full k id delay ts code what le e again left many armed =
    rw (quota_full_lem le k id code what e again left many) (
      rw (fires_lem le id k delay ts (without_quota k e) armed)
        (ground arith, ground arith, ground arith, ground arith))
