-- ===== src/Executor/Pooled/Endings.antt =====
-- task_executor.cpp: what the end of a task's function, and its being taken off the count of retries,
-- do to the tasks that are being run.
use tiny_reactor.Base.{
  either, tally, ℕ, refl, inl, inr, Bool, ◌&&◌, List, ◌==◌, ltb, leb, arith, Option-cases,
}
use tiny_reactor.Executor.{
  TaskExecutor, Outcome, returns, throws, ends, gives_back, update_task_state, add_timer,
  finish_task, handle_exception, ask_quota, cancel_timer, is_retryable_error, max_concurrent_retry,
  give_back, take_task, take_running, call_function, step,
}
use tiny_reactor.Executor.Counts.{tally-take_task, tally-take_running}
use tiny_reactor.Executor.Pooled.Effects.{only, none_of, Effect, Quiet, same-Quiet, updated-Effect}

-- The function of a task `k` ends.
ask_quota-Effect : (k : ℕ) (e : TaskExecutor) → Effect e.queue (only k) none_of e (ask_quota k e)
unfolding ask_quota add_timer tally
ask_quota-Effect k e =
    either (Effect e.queue (only k) none_of e) (leb max_concurrent_retry e.retrying_cnt)
      (record { queued = refl; loaded = λ j. ground arith; returned = λ j. omega arith })
      (record { queued = refl; loaded = λ j. ground arith; returned = λ j. omega arith })

cancel_timer-Effect :
    {queue : List ℕ} {started again : ℕ → ℕ} {e f : TaskExecutor} (i : ℕ)
    → Effect queue started again e f
    → Effect queue started again e (cancel_timer i f)
unfolding cancel_timer
cancel_timer-Effect i h = record { queued = h.queued; loaded = h.loaded; returned = h.returned }

finish_task-Effect :
    (k i : ℕ) (o : Outcome) (e : TaskExecutor)
    → Effect e.queue (only k) none_of e (finish_task k i o e)
unfolding finish_task handle_exception
finish_task-Effect k i (returns r) e = cancel_timer-Effect i (updated-Effect k _ _ _ (only k) e)
finish_task-Effect k i (throws code what) e =
    either (Effect e.queue (only k) none_of e)
      (is_retryable_error code && ltb (e.tasks k).retry_count (e.tasks k).max_retry)
      (ask_quota-Effect k e) (cancel_timer-Effect i (updated-Effect k _ _ _ (only k) e))

pub ends-Quiet :
    (le : ℕ → ℕ → Bool) (k : ℕ) (flags : ℕ → Bool) (e : TaskExecutor)
    → Quiet e (step le (ends k flags) e)
unfolding step
ends-Quiet le k flags e = elim (Option-cases (take_running k e.running)) [
  | inl gone ↦ rw (gone, step) (same-Quiet e)
  | inr ((i, rest), found) ↦
      let f : Effect e.queue (only k) none_of (record e { running = rest }) _ =
        finish_task-Effect k i (call_function k flags e) (record e { running = rest }) in
      rw (found, step)
        (record {
          queued = f.queued;
          loaded = λ j.
              omega
                (arith, f.loaded j, tally-take_running (λ r. r.0 == j) k i e.running rest found);
          returned = f.returned;
        })
]

pub gives_back-Quiet :
    (le : ℕ → ℕ → Bool) (k : ℕ) (e : TaskExecutor) → Quiet e (step le (gives_back k) e)
unfolding step give_back update_task_state
gives_back-Quiet le k e = elim (Option-cases (take_task k e.refused)) [
  | inl gone ↦ rw (gone, step) (same-Quiet e)
  | inr (rest, found) ↦
      rw (found, step)
        (record {
          queued = refl;
          loaded = λ j. omega (arith, tally-take_task (λ x. x == j) k e.refused rest found);
          returned = λ j. omega arith;
        })
]
