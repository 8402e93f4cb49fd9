-- ===== src/Executor/Invariant.antt =====
-- task_executor.cpp: the retry accounting of the executor, kept by every event.
use tiny_reactor.Base.{
  tally, length, ℕ, ◌+◌, ◌≤◌, ◌<◌, ◌≡◌, ◌^◌, refl, subst, ==_iff, inl, inr, Bool, List, [], ◌∷◌,
  ◌==◌, arith, Bool-cases, Option-cases,
}
use tiny_reactor.Executor.{
  TaskExecutor, Event, submits, begins, ends, expires, fires, passes, gives_back, resubmits,
  take_task, call_function, take_running, take_expired, step, run,
}
use tiny_reactor.Executor.Counts.{places, waits, waiting}
use tiny_reactor.Executor.Kept.{nobody, only, finish_task-Inv, Inv}
use tiny_reactor.Executor.Taken.{
  begin_next-Inv, take_running-Inv, on_timer-Inv, expire-Inv, execute_task-Inv, give_back-Inv,
  resubmitting-Inv,
}

-- A client submits a task only while it is in no list of the executor.
abbrev pub IsAllowed : Event → TaskExecutor → Type 0
IsAllowed (submits k) e = places k e ≡ 0
IsAllowed _ e = Unit

take_hold : (k : ℕ) (e : TaskExecutor) → IsAllowed (submits k) e → Inv nobody e → Inv (only k) e
take_hold k e h inv = record {
  once = λ j. elim (Bool-cases (k == j)) [
    | inl same ↦ subst (λ x. places x e + only k x ≤ 1) ((==_iff k j).0 same) (ground (arith, h))
    | inr other ↦ rw other (inv.once j)
  ];
  budget = inv.budget;
  small = inv.small;
  counted = inv.counted;
  limit = inv.limit;
  apart = inv.apart;
  fresh = inv.fresh;
}

pub step-Inv :
    (le : ℕ → ℕ → Bool) (v : Event) (e : TaskExecutor)
    → IsAllowed v e
    → Inv nobody e
    → Inv nobody (step le v e)
unfolding step
step-Inv le (submits k) e h inv = execute_task-Inv k e (take_hold k e h inv)
step-Inv le begins e h inv = begin_next-Inv le e.queue e refl inv
step-Inv le (ends k flags) e h inv = elim (Option-cases (take_running k e.running)) [
  | inl gone ↦ rw (gone, step) inv
  | inr ((i, rest), found) ↦
      let (held, free) = take_running-Inv k i rest e found inv in
      rw (found, step) (finish_task-Inv k held i (call_function k flags e) free)
]
step-Inv le (gives_back k) e h inv = elim (Option-cases (take_task k e.refused)) [
  | inl gone ↦ rw (gone, step) inv
  | inr (rest, found) ↦ rw (found, step) (give_back-Inv k rest e found inv)
]
step-Inv le (resubmits k) e h inv = elim (Option-cases (take_task k e.resubmitting)) [
  | inl gone ↦ rw (gone, step) inv
  | inr (rest, found) ↦
      rw (found, step) (execute_task-Inv k _ (resubmitting-Inv k rest e found inv))
]
step-Inv le (expires i) e h inv = expire-Inv i e inv
step-Inv le (fires i) e h inv = elim (Option-cases (take_expired i e.timers)) [
  | inl gone ↦ rw (gone, step) inv
  | inr ((t, rest), found) ↦ rw (found, step) (on_timer-Inv i t rest e found inv t.kind refl)
]
step-Inv le (passes n) e h inv = record {
  once = inv.once;
  budget = inv.budget;
  small = inv.small;
  counted = inv.counted;
  limit = inv.limit;
  apart = inv.apart;
  fresh = inv.fresh;
}

-- Every submission in a history is of a task that is in no list at that time.
abbrev pub AreAllowed : (ℕ → ℕ → Bool) → List Event → TaskExecutor → Type 0
AreAllowed le [] e = Unit {0}
AreAllowed le (v ∷ vs) e = IsAllowed v e × AreAllowed le vs (step le v e)

pub run-Inv :
    (le : ℕ → ℕ → Bool) (vs : List Event) (e : TaskExecutor)
    → AreAllowed le vs e
    → Inv nobody e
    → Inv nobody (run le vs e)
unfolding run
run-Inv le [] e h inv = inv
run-Inv le (v ∷ vs) e h inv = run-Inv le vs (step le v e) h.1 (step-Inv le v e h.0 inv)

-- An executor that has no work yet, and tasks whose retries are within their limits.
pub record IsIdle (e : TaskExecutor) : Type 0 where
  pub queue : e.queue ≡ []
  pub running : e.running ≡ []
  pub refused : e.refused ≡ []
  pub resubmitting : e.resubmitting ≡ []
  pub timers : e.timers ≡ []
  pub retrying_cnt : e.retrying_cnt ≡ 0
  pub limits : (k : ℕ) → (e.tasks k).retry_count ≤ (e.tasks k).max_retry
  pub small : (k : ℕ) → (e.tasks k).max_retry < 2 ^ 32

pub IsIdle-Inv : (e : TaskExecutor) → IsIdle e → Inv nobody e
unfolding tally
IsIdle-Inv e h = record {
  once = λ k. rw (h.queue, h.running, h.timers, h.refused, h.resubmitting) (omega arith);
  budget = λ k. rw h.timers (omega (arith, h.limits k));
  small = h.small;
  counted = rw (h.timers, h.refused) h.retrying_cnt;
  limit = rw h.timers (omega arith);
  apart = λ i. rw h.running (inl refl);
  fresh = λ i f. rw (h.running, h.timers) (refl, refl);
}

-- After any history of an executor that starts without work, in which a task is submitted only while
-- it is in no list: at most ten retry timers are pending, `retrying_cnt` counts them and the tasks
-- that were refused and are not taken off yet, no task is in two places at once, and no task has
-- been retried more than `max_retry` times, one pending retry included.
pub run-retries_bounded :
    (le : ℕ → ℕ → Bool) (vs : List Event) (e : TaskExecutor)
    → IsIdle e
    → AreAllowed le vs e
    → let f = run le vs e in
      (f.retrying_cnt ≡ waiting f + length f.refused)
      × (waiting f ≤ 10)
      × ((k : ℕ) → places k f ≤ 1)
      × ((k : ℕ) → (f.tasks k).retry_count + waits k f ≤ (f.tasks k).max_retry)
run-retries_bounded le vs e idle h =
    (inv.counted, inv.limit, λ k. omega (arith, inv.once k), inv.budget)
  where
    inv : Inv nobody (run le vs e)
    inv = run-Inv le vs e h (IsIdle-Inv e idle)
