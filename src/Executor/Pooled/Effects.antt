-- ===== src/Executor/Pooled/Effects.antt =====
-- task_executor.cpp: what each event does to the executor's queue, to the tasks that are being run
-- and to those that are submitted again.
use Prim.Native.String.{String}
use tiny_reactor.Base.{
  tally, ℕ, ◌+◌, ◌≤◌, ◌≡◌, ◌≢◌, refl, sym, subst, ap, inl, inr, Bool, true, some, none, List, [],
  ◌∷◌, ◌++◌, ◌==◌, if◌then◌else◌, arith, Bool-cases, Option-cases,
}
use tiny_reactor.Task.JsonValue.{Json}
use tiny_reactor.Task.{TaskState}
use tiny_reactor.Base.Int.{ℤ, pos, negsuc}
use tiny_reactor.Executor.{
  TaskExecutor, Timer, TimerKind, exec_timer, retry_timer, submits, begins, resubmits, expires,
  fires, passes, begin_task, begin_next, start_task, update_task_state, check_resources,
  remaining_timeout, get_current_timestamp_ms, take_task, take_expired, execute_task, on_timer,
  step,
}
use tiny_reactor.Executor.Counts.{runs, refusing, returning, tally-take_task}
use tiny_reactor.Executor.Run.{begin_task-refused, begin_task-late, begin_task-started}

-- How often a task is being run: its function runs, or it was refused a retry.
abbrev pub load : ℕ → TaskExecutor → ℕ
load j e = runs j e + refusing j e

abbrev pub only : ℕ → ℕ → ℕ
only k j = if k == j then 1 else 0

abbrev pub none_of : ℕ → ℕ
none_of j = 0

-- The queue of `f` is `queue`, and `f` runs the tasks of `e` and those that `started` counts at most;
-- `again` counts those that are submitted again besides those of `e`.
pub record Effect (queue : List ℕ) (started again : ℕ → ℕ) (e f : TaskExecutor) : Type 0 where
  pub queued : f.queue ≡ queue
  pub loaded : (j : ℕ) → load j f ≤ load j e + started j
  pub returned : (j : ℕ) → returning j f ≡ returning j e + again j

-- An event that starts no task.
abbrev pub Quiet : TaskExecutor → TaskExecutor → Type 0
Quiet e f = Effect e.queue none_of none_of e f

pub same-Quiet : (e : TaskExecutor) → Quiet e e
same-Quiet e = record { queued = refl; loaded = λ j. omega arith; returned = λ j. omega arith }

-- A change of a task's outcome starts no task.
pub updated-Effect :
    (k : ℕ) (st : TaskState) (r : Json) (error : String) (started : ℕ → ℕ) (e : TaskExecutor)
    → Effect e.queue started none_of e (update_task_state k st r error e)
unfolding update_task_state
updated-Effect k st r error started e = record {
  queued = refl;
  loaded = λ j. omega arith;
  returned = λ j. omega arith;
}

start_task-Effect :
    (k r : ℕ) (e : TaskExecutor) → Effect e.queue (only k) none_of e (start_task k r e)
unfolding start_task tally
start_task-Effect k r e = record {
  queued = refl;
  loaded = λ j. ground arith;
  returned = λ j. omega arith;
}

begin_task-Effect :
    (le : ℕ → ℕ → Bool) (k : ℕ) (e : TaskExecutor)
    → Effect e.queue (only k) none_of e (begin_task le k e)
begin_task-Effect le k e = elim (Bool-cases (check_resources le (e.tasks k).required e)) [
  | inl fits ↦ by_time fits (remaining_timeout (e.tasks k) (get_current_timestamp_ms e.clock)) refl
  | inr short ↦ rw (begin_task-refused le k e short) (updated-Effect k _ _ _ (only k) e)
]
  where
    by_time :
        check_resources le (e.tasks k).required e ≡ true
        → (z : ℤ) → remaining_timeout (e.tasks k) (get_current_timestamp_ms e.clock) ≡ z
        → Effect e.queue (only k) none_of e (begin_task le k e)
    by_time fits (pos r) q = rw (begin_task-started le k e r fits q) (start_task-Effect k r e)
    by_time fits (negsuc m) q =
        rw (begin_task-late le k e m fits q) (updated-Effect k _ _ _ (only k) e)

-- A pool thread takes the first task.
pub begins-Effect :
    (le : ℕ → ℕ → Bool) (k : ℕ) (ks : List ℕ) (e : TaskExecutor)
    → e.queue ≡ k ∷ ks
    → Effect ks (only k) none_of e (step le begins e)
unfolding step begin_next
begins-Effect le k ks e q =
    subst (λ qs. Effect ks (only k) none_of e (begin_next le qs e)) (sym q)
      (record { queued = b.queued; loaded = b.loaded; returned = b.returned })
  where
    b :
        Effect ks
          (only k)
          none_of
          (record e { queue = ks })
          (begin_task le k (record e { queue = ks }))
    b = begin_task-Effect le k (record e { queue = ks })

pub begins-nothing : (le : ℕ → ℕ → Bool) (e : TaskExecutor) → e.queue ≡ [] → step le begins e ≡ e
unfolding step begin_next
begins-nothing le e q = ap (λ qs. begin_next le qs e) q

pub expires-Quiet : (le : ℕ → ℕ → Bool) (i : ℕ) (e : TaskExecutor) → Quiet e (step le (expires i) e)
unfolding step
expires-Quiet le i e = record {
  queued = refl;
  loaded = λ j. omega arith;
  returned = λ j. omega arith;
}

pub passes-Quiet : (le : ℕ → ℕ → Bool) (n : ℕ) (e : TaskExecutor) → Quiet e (step le (passes n) e)
unfolding step
passes-Quiet le n e = record {
  queued = refl;
  loaded = λ j. omega arith;
  returned = λ j. omega arith;
}

-- The handler of a timer that was taken off the list.
abbrev pub again : Timer → TimerKind → ℕ → ℕ
again t exec_timer = none_of
again t retry_timer = only t.task

on_timer-Effect :
    (t : Timer) (kind : TimerKind) (e : TaskExecutor)
    → Effect e.queue none_of (again t kind) e (on_timer t kind e)
unfolding on_timer update_task_state tally
on_timer-Effect t exec_timer e = record {
  queued = refl;
  loaded = λ j. omega arith;
  returned = λ j. omega arith;
}
on_timer-Effect t retry_timer e = record {
  queued = refl;
  loaded = λ j. omega arith;
  returned = λ j. omega arith;
}

pub fires-Effect :
    (le : ℕ → ℕ → Bool) (i : ℕ) (t : Timer) (rest : List Timer) (e : TaskExecutor)
    → take_expired i e.timers ≡ some (t, rest)
    → Effect e.queue none_of (again t t.kind) e (step le (fires i) e)
unfolding step
fires-Effect le i t rest e found =
    let f : Effect e.queue none_of (again t t.kind) (record e { timers = rest }) _ =
      on_timer-Effect t t.kind (record e { timers = rest }) in
    rw (found, step) (record { queued = f.queued; loaded = f.loaded; returned = f.returned })

-- The queue takes a task.
pub submits-Effect :
    (le : ℕ → ℕ → Bool) (k : ℕ) (e : TaskExecutor)
    → Effect (e.queue ++ k ∷ []) none_of none_of e (step le (submits k) e)
unfolding step execute_task
submits-Effect le k e = record {
  queued = refl;
  loaded = λ j. omega arith;
  returned = λ j. omega arith;
}

-- It takes one that is submitted again.
pub record Resubmitted (k : ℕ) (e f : TaskExecutor) : Type 0 where
  pub queued : f.queue ≡ e.queue ++ k ∷ []
  pub loaded : (j : ℕ) → load j f ≡ load j e
  pub returned : (j : ℕ) → returning j f + only k j ≡ returning j e

pub tally_none : (k : ℕ) (js : List ℕ) → take_task k js ≡ none → tally (λ j. j == k) js ≡ 0
unfolding tally take_task
tally_none k [] h = refl
tally_none k (j ∷ js) h = elim (Bool-cases (j == k)) [
  | inl here ↦ absurd (ground arith)
  | inr there ↦ elim (Option-cases (take_task k js)) [
    | inl gone ↦ ground (arith, tally_none k js gone)
    | inr (ks, found) ↦ absurd (ground arith)
  ]
]

pub resubmits-Resubmitted :
    (le : ℕ → ℕ → Bool) (k : ℕ) (e : TaskExecutor)
    → returning k e ≢ 0
    → Resubmitted k e (step le (resubmits k) e)
unfolding step execute_task
resubmits-Resubmitted le k e h = elim (Option-cases (take_task k e.resubmitting)) [
  | inl gone ↦ absurd (h (tally_none k e.resubmitting gone))
  | inr (rest, found) ↦
      rw (found, step)
        (record {
          queued = refl;
          loaded = λ j. refl;
          returned = λ j. ground (arith, tally-take_task (λ x. x == j) k e.resubmitting rest found);
        })
]
