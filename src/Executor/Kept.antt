-- ===== src/Executor/Kept.antt =====
-- task_executor.cpp: the retry accounting of the executor, and the parts of `run_task` that keep it.
use Prim.Native.String.{String}
use tiny_reactor.Base.{
  tally, ℕ, ◌+◌, ◌≤◌, ◌<◌, ◌≡◌, ◌^◌, refl, ◌⊎◌, inl, inr, Bool, true, not, ◌&&◌, ◌||◌, ◌==◌, ltb,
  leb, if◌then◌else◌, length, ◌∷◌, select, arith, Bool-cases,
}
use tiny_reactor.Base.Int.{ℤ, pos, negsuc}
use tiny_reactor.Task.JsonValue.{Json}
use tiny_reactor.Task.{TaskState}
use tiny_reactor.Executor.{
  get_current_timestamp_ms, TaskExecutor, Timer, retry_timer, ErrorCode, Outcome, returns, throws,
  update_task_state, check_resources, remaining_timeout, start_task, begin_task, add_timer,
  cancel_timer, ask_quota, handle_exception, is_retryable_error, max_concurrent_retry, finish_task,
}
use tiny_reactor.Executor.Counts.{
  tally_mono, is_retry, waits_for, retries_as, places, waits, runs_as, waiting, retrying_as,
  tally-cancel,
}
use tiny_reactor.Executor.Run.{begin_task-refused, begin_task-late, begin_task-started}

-- The invariant, while a thread holds the tasks that `held` counts, between two lists.
pub record Inv (held : ℕ → ℕ) (e : TaskExecutor) : Type 0 where
  pub once : (k : ℕ) → places k e + held k ≤ 1
  pub budget : (k : ℕ) → (e.tasks k).retry_count + waits k e ≤ (e.tasks k).max_retry
  pub small : (k : ℕ) → (e.tasks k).max_retry < 2 ^ 32
  pub counted : e.retrying_cnt ≡ waiting e + length e.refused
  pub limit : waiting e ≤ 10
  pub apart : (i : ℕ) → (runs_as i e ≡ 0) ⊎ (retrying_as i e ≡ 0)
  pub fresh : (i : ℕ) → e.next_timer ≤ i → (runs_as i e ≡ 0) × (retrying_as i e ≡ 0)

abbrev pub nobody : ℕ → ℕ
nobody _ = 0

abbrev pub only : ℕ → ℕ → ℕ
only k j = if k == j then 1 else 0

-- A change of the tasks that leaves their retries alone.
module _ {held : ℕ → ℕ} {e : TaskExecutor} (inv : Inv held e) where
  open inv use {once, budget, small, counted, limit, apart, fresh}

  drop_held : Inv nobody e
  drop_held = record {
    once = λ k. omega (arith, once k);
    budget = budget;
    small = small;
    counted = counted;
    limit = limit;
    apart = apart;
    fresh = fresh;
  }

  update_task_state-Inv :
      (k : ℕ) (s : TaskState) (r : Json) (error : String)
      → Inv held (update_task_state k s r error e)
  unfolding update_task_state
  update_task_state-Inv k s r error = record {
    once = once;
    budget = λ j. ground (arith, budget j);
    small = λ j. ground (arith, small j);
    counted = counted;
    limit = limit;
    apart = apart;
    fresh = fresh;
  }

  cancel_timer-Inv : (i : ℕ) → retrying_as i e ≡ 0 → Inv held (cancel_timer i e)
  unfolding cancel_timer
  cancel_timer-Inv i free = record {
    once = λ k. rw (same (waits_for k) (λ t h. ground arith)) (once k);
    budget = λ k. rw (same (waits_for k) (λ t h. ground arith)) (budget k);
    small = small;
    counted = rw (same (λ t. is_retry t.kind) (λ t h. ground arith)) counted;
    limit = rw (same (λ t. is_retry t.kind) (λ t h. ground arith)) limit;
    apart = λ j. rw (same (retries_as j) (λ t h. ground arith)) (apart j);
    fresh = λ j h. rw (same (retries_as j) (λ t h. ground arith)) (fresh j h);
  }
    where
      same :
          (p : Timer → Bool)
          → ((t : Timer) → (p t && (t.id == i)) ≡ true → retries_as i t ≡ true)
          → tally p (select (λ t. not (t.id == i) || t.expired) e.timers) ≡ tally p e.timers
      same p sub =
          tally-cancel p i e.timers
            (omega (arith, tally_mono (λ t. p t && (t.id == i)) (retries_as i) e.timers sub, free))

module _ (k : ℕ) {e : TaskExecutor} (inv : Inv (only k) e) where
  open inv use {once, budget, small, counted, limit, apart, fresh}

  start_task-Inv : (r : ℕ) → Inv nobody (start_task k r e)
  unfolding start_task tally
  start_task-Inv r = record {
    once = λ j. ground (arith, once j);
    budget = λ j. ground (arith, budget j);
    small = λ j. ground (arith, small j);
    counted = omega (arith, counted);
    limit = omega (arith, limit);
    apart = λ i. ground (arith, apart i, fresh i);
    fresh = λ i h. ground (arith, fresh i);
  }

  pub begin_task-Inv : (le : ℕ → ℕ → Bool) → Inv nobody (begin_task le k e)
  begin_task-Inv le = elim (Bool-cases (check_resources le (e.tasks k).required e)) [
    | inl fits ↦
        by_time fits (remaining_timeout (e.tasks k) (get_current_timestamp_ms e.clock)) refl
    | inr short ↦
        rw (begin_task-refused le k e short)
          (update_task_state-Inv (drop_held inv) k TaskState.failed Json.null _)
  ]
    where
      by_time :
          check_resources le (e.tasks k).required e ≡ true
          → (z : ℤ) → remaining_timeout (e.tasks k) (get_current_timestamp_ms e.clock) ≡ z
          → Inv nobody (begin_task le k e)
      by_time fits (pos r) q = rw (begin_task-started le k e r fits q) (start_task-Inv r)
      by_time fits (negsuc m) q =
          rw (begin_task-late le k e m fits q)
            (update_task_state-Inv (drop_held inv) k TaskState.timeout Json.null _)

  -- A retry that is planned: the task has retries left, and fewer than ten tasks wait.
  plan_retry-Inv :
      (delay : ℕ)
      → (e.tasks k).retry_count < (e.tasks k).max_retry
      → e.retrying_cnt < 10
      → Inv nobody (add_timer k retry_timer delay (record e { retrying_cnt = e.retrying_cnt + 1 }))
  unfolding add_timer tally
  plan_retry-Inv delay left few = record {
    once = λ j. ground (arith, once j);
    budget = λ j. ground (arith, budget j, once j);
    small = λ j. ground (arith, small j);
    counted = ground arith;
    limit = ground (arith, counted);
    apart = λ i. ground (arith, apart i, fresh i);
    fresh = λ i h. ground (arith, fresh i);
  }

  -- A task that finds the quota full.
  refuse-Inv : Inv nobody (record e { retrying_cnt = e.retrying_cnt + 1; refused = k ∷ e.refused })
  unfolding tally
  refuse-Inv = record {
    once = λ j. ground (arith, once j);
    budget = budget;
    small = small;
    counted = ground (arith, counted);
    limit = limit;
    apart = apart;
    fresh = fresh;
  }

  ask_quota-Inv : (e.tasks k).retry_count < (e.tasks k).max_retry → Inv nobody (ask_quota k e)
  unfolding ask_quota
  ask_quota-Inv left = elim (Bool-cases (leb max_concurrent_retry e.retrying_cnt)) [
    | inl full ↦ rw (full, ask_quota) refuse-Inv
    | inr room ↦ rw (room, ask_quota) (plan_retry-Inv _ left (ground arith))
  ]

  handle_exception-Inv :
      (i : ℕ) (code : ErrorCode) (what : String)
      → retrying_as i e ≡ 0
      → Inv nobody (handle_exception k i code what e)
  unfolding handle_exception
  handle_exception-Inv i code what free =
      elim (Bool-cases
        (is_retryable_error code && ltb (e.tasks k).retry_count (e.tasks k).max_retry)) [
          | inl again ↦ rw (again, handle_exception) (ask_quota-Inv (ground arith))
          | inr never ↦
              rw (never, handle_exception)
                (cancel_timer-Inv
                  (update_task_state-Inv (drop_held inv) k TaskState.failed Json.null _) i free)
        ]

  pub finish_task-Inv :
      (i : ℕ) (o : Outcome) → retrying_as i e ≡ 0 → Inv nobody (finish_task k i o e)
  unfolding finish_task
  finish_task-Inv i (returns r) free =
      cancel_timer-Inv (update_task_state-Inv (drop_held inv) k TaskState.success r _) i free
  finish_task-Inv i (throws code what) free = handle_exception-Inv i code what free
