-- ===== src/Executor/Settled.antt =====
-- task_executor.cpp: a task that was submitted is somewhere in the executor until it has a result.
use Prim.Native.String.{String}
use tiny_reactor.Base.{
  tally, tally-append, ℕ, ◌+◌, ◌-◌, ◌≤◌, ◌≡◌, refl, ap, sym, subst, ◌⊎◌, inl, inr, Bool, true, ◌&&◌,
  some, List, [], ◌∷◌, ◌++◌, ◌==◌, ==_iff, ltb, leb, if◌then◌else◌, either, arith, Bool-cases,
  Option-cases,
}
use tiny_reactor.Base.Int.{ℤ, pos, negsuc}
use tiny_reactor.Task.JsonValue.{Json}
use tiny_reactor.Task.{TaskState}
use tiny_reactor.Executor.{
  TaskExecutor, Timer, TimerKind, exec_timer, retry_timer, Outcome, returns, throws, Event, submits,
  begins, ends, expires, fires, passes, gives_back, resubmits, give_back, update_task_state,
  take_task, execute_task, start_task, begin_task, check_resources, remaining_timeout,
  get_current_timestamp_ms, add_timer, cancel_timer, ask_quota, handle_exception,
  is_retryable_error, max_concurrent_retry, finish_task, begin_next, call_function, on_timer,
  take_running, take_expired, step, run,
}
use tiny_reactor.Executor.Counts.{
  tally_mono, waits_for, retries_as, places, tally-take_task, retrying_as, tally-take_running,
  tally-take_expired, tally-expire, tally-cancel,
}
use tiny_reactor.Executor.Run.{begin_task-refused, begin_task-late, begin_task-started}
use tiny_reactor.Executor.Kept.{Inv, nobody}
use tiny_reactor.Executor.Taken.{take_running-Inv}
use tiny_reactor.Executor.Invariant.{AreAllowed, IsIdle, IsIdle-Inv, run-Inv, step-Inv}

-- The states in which the executor leaves a task.
unfoldable pub has_ended : TaskState → ℕ
has_ended TaskState.success = 1
has_ended TaskState.failed = 1
has_ended TaskState.timeout = 1
has_ended _ = 0

-- The task is in some place of the executor, or in the hands of a thread (`held`), or has a result.
abbrev Watched : (k held : ℕ) → TaskExecutor → Type 0
Watched k held e = 1 ≤ places k e + held + has_ended (e.tasks k).state

abbrev only : ℕ → ℕ → ℕ
only j k = if j == k then 1 else 0

module _ (k : ℕ) where
  -- A task gets a result.
  ended :
      (j : ℕ) (s : TaskState) (r : Json) (error : String) (e : TaskExecutor)
      → has_ended s ≡ 1
      → Watched k (only j k) e
      → Watched k 0 (update_task_state j s r error e)
  unfolding update_task_state
  ended j s r error e done w = ground (arith, w, done)

  started : (j r : ℕ) (e : TaskExecutor) → Watched k (only j k) e → Watched k 0 (start_task j r e)
  unfolding start_task tally has_ended
  started j r e w = ground (arith, w)

  begun :
      (le : ℕ → ℕ → Bool) (j : ℕ) (e : TaskExecutor)
      → Watched k (only j k) e
      → Watched k 0 (begin_task le j e)
  unfolding has_ended
  begun le j e w = elim (Bool-cases (check_resources le (e.tasks j).required e)) [
    | inl fits ↦
        by_time fits (remaining_timeout (e.tasks j) (get_current_timestamp_ms e.clock)) refl
    | inr short ↦ rw (begin_task-refused le j e short) (ended j TaskState.failed _ _ e refl w)
  ]
    where
      by_time :
          check_resources le (e.tasks j).required e ≡ true
          → (z : ℤ) → remaining_timeout (e.tasks j) (get_current_timestamp_ms e.clock) ≡ z
          → Watched k 0 (begin_task le j e)
      by_time fits (pos r) q = rw (begin_task-started le j e r fits q) (started j r e w)
      by_time fits (negsuc m) q =
          rw (begin_task-late le j e m fits q) (ended j TaskState.timeout _ _ e refl w)

  begun_next :
      (le : ℕ → ℕ → Bool) (ks : List ℕ) (e : TaskExecutor)
      → e.queue ≡ ks
      → Watched k 0 e
      → Watched k 0 (begin_next le ks e)
  unfolding begin_next tally
  begun_next le [] e q w = w
  begun_next le (j ∷ ks) e q w =
      begun le j (record e { queue = ks }) (ground (arith, w, ap (tally (λ x. x == k)) q))

  asked : (j : ℕ) (e : TaskExecutor) → Watched k (only j k) e → Watched k 0 (ask_quota j e)
  unfolding ask_quota add_timer tally
  asked j e w =
      either (Watched k 0) (leb max_concurrent_retry e.retrying_cnt) (ground (arith, w))
        (ground (arith, w))

  cancelled :
      (i : ℕ) (e : TaskExecutor)
      → retrying_as i e ≡ 0
      → Watched k 0 e
      → Watched k 0 (cancel_timer i e)
  unfolding cancel_timer
  cancelled i e free w = ground (
    arith,
    w,
    tally-cancel (waits_for k) i e.timers (
        omega (
          arith,
          tally_mono (λ t. waits_for k t && (t.id == i)) (retries_as i) e.timers
              (λ t h. ground arith),
          free,
        )),
  )

  finished :
      (j i : ℕ) (o : Outcome) (e : TaskExecutor)
      → retrying_as i e ≡ 0
      → Watched k (only j k) e
      → Watched k 0 (finish_task j i o e)
  unfolding finish_task handle_exception has_ended update_task_state
  finished j i (returns r) e free w =
      cancelled i (update_task_state j TaskState.success r "" e) free
        (ended j TaskState.success r "" e refl w)
  finished j i (throws code what) e free w =
      either (Watched k 0)
        (is_retryable_error code && ltb (e.tasks j).retry_count (e.tasks j).max_retry) (asked j e w)
        (cancelled i (update_task_state j TaskState.failed Json.null _ e) free
          (ended j TaskState.failed Json.null _ e refl w))

  executed : (j : ℕ) (e : TaskExecutor) → Watched k (only j k) e → Watched k 0 (execute_task j e)
  unfolding execute_task tally
  executed j e w = ground (arith, w, tally-append (λ q. q == k) e.queue (j ∷ []))

  given_back : (j : ℕ) (e : TaskExecutor) → Watched k (only j k) e → Watched k 0 (give_back j e)
  unfolding give_back has_ended
  given_back j e w =
      ended j TaskState.failed _ _ (record e { retrying_cnt = e.retrying_cnt - 1 }) refl w

  rung :
      (i : ℕ) (t : Timer) (rest : List Timer) (e : TaskExecutor)
      → take_expired i e.timers ≡ some (t, rest)
      → Watched k 0 e
      → (kind : TimerKind) → t.kind ≡ kind
      → Watched k 0 (on_timer t kind (record e { timers = rest }))
  unfolding on_timer update_task_state tally has_ended
  rung i t rest e found w exec_timer q =
      ground (arith, w, q, tally-take_expired (waits_for k) i e.timers rest t found)
  rung i t rest e found w retry_timer q =
      ground (arith, w, q, tally-take_expired (waits_for k) i e.timers rest t found)

  step-Watched :
      (le : ℕ → ℕ → Bool) (v : Event) (e : TaskExecutor)
      → Inv nobody e
      → Watched k 0 e
      → Watched k 0 (step le v e)
  unfolding step
  step-Watched le (submits j) e inv w = executed j e (omega (arith, w))
  step-Watched le begins e inv w = begun_next le e.queue e refl w
  step-Watched le (ends j flags) e inv w = elim (Option-cases (take_running j e.running)) [
    | inl gone ↦ rw (gone, step) w
    | inr ((i, rest), found) ↦
        let (_, free) = take_running-Inv j i rest e found inv in
        rw (found, step)
          (finished j i (call_function j flags e) (record e { running = rest }) free
            (omega (arith, w, tally-take_running (λ r. r.0 == k) j i e.running rest found)))
  ]
  step-Watched le (gives_back j) e inv w = elim (Option-cases (take_task j e.refused)) [
    | inl gone ↦ rw (gone, step) w
    | inr (rest, found) ↦
        rw (found, step)
          (given_back j (record e { refused = rest })
            (omega (arith, w, tally-take_task (λ q. q == k) j e.refused rest found)))
  ]
  step-Watched le (resubmits j) e inv w = elim (Option-cases (take_task j e.resubmitting)) [
    | inl gone ↦ rw (gone, step) w
    | inr (rest, found) ↦
        rw (found, step)
          (executed j (record e { resubmitting = rest })
            (omega (arith, w, tally-take_task (λ q. q == k) j e.resubmitting rest found)))
  ]
  step-Watched le (expires i) e inv w = rw (tally-expire (waits_for k) i e.timers (λ t. refl)) w
  step-Watched le (fires i) e inv w = elim (Option-cases (take_expired i e.timers)) [
    | inl gone ↦ rw (gone, step) w
    | inr ((t, rest), found) ↦ rw (found, step) (rung i t rest e found w t.kind refl)
  ]
  step-Watched le (passes n) e inv w = w

  run-Watched :
      (le : ℕ → ℕ → Bool) (vs : List Event) (e : TaskExecutor)
      → AreAllowed le vs e
      → Inv nobody e
      → Watched k 0 e
      → Watched k 0 (run le vs e)
  unfolding run
  run-Watched le [] e h inv w = w
  run-Watched le (v ∷ vs) e h inv w =
      run-Watched le vs (step le v e) h.1 (step-Inv le v e h.0 inv) (step-Watched le v e inv w)

-- What is allowed at first and then.
AreAllowed-append :
    (le : ℕ → ℕ → Bool) (us vs : List Event) (e : TaskExecutor)
    → AreAllowed le (us ++ vs) e
    → AreAllowed le us e
      × AreAllowed le vs (run le us e)
      × (run le (us ++ vs) e ≡ run le vs (run le us e))
unfolding run
AreAllowed-append le [] vs e h = (tt, h, refl)
AreAllowed-append le (u ∷ us) vs e h =
    let (a, b, c) = AreAllowed-append le us vs (step le u e) h.1 in ((h.0, a), b, c)

-- The executor has given the task a result.
abbrev pub HasEnded : ℕ → TaskExecutor → Type 0
HasEnded k e = has_ended (e.tasks k).state ≡ 1

has_ended-cases : (s : TaskState) → (has_ended s ≡ 0) ⊎ (has_ended s ≡ 1)
unfolding has_ended
has_ended-cases s = ground arith

decided :
    (k : ℕ) (f : TaskExecutor) → Inv nobody f → Watched k 0 f → (places k f ≡ 1) ⊎ HasEnded k f
decided k f inv w = elim (has_ended-cases (f.tasks k).state) [
  | inl open_end ↦ inl (omega (arith, w, open_end, inv.once k))
  | inr ended ↦ inr ended
]

-- In a history of an executor that starts without work, in which a task is submitted only while it is
-- in no list: a task that was submitted is in exactly one place of the executor, or the executor has
-- left it with the state SUCCESS, FAILED or TIMEOUT. No task is lost on the way.
pub run-held_or_ended :
    (le : ℕ → ℕ → Bool) (us vs : List Event) (k : ℕ) (e : TaskExecutor)
    → IsIdle e
    → AreAllowed le (us ++ submits k ∷ vs) e
    → let f = run le (us ++ submits k ∷ vs) e in (places k f ≡ 1) ⊎ HasEnded k f
unfolding step run
run-held_or_ended le us vs k e idle allowed =
    let (before, (free, after), same) = AreAllowed-append le us (submits k ∷ vs) e allowed in
    let inv : Inv nobody (run le us e) = run-Inv le us e before (IsIdle-Inv e idle) in
    let taken : Inv nobody (execute_task k (run le us e)) =
      step-Inv le (submits k) (run le us e) free inv in
    let w : Watched k 0 (execute_task k (run le us e)) =
      executed k k (run le us e) (ground (arith, ==_iff k k)) in
    let f : Watched k 0 (run le vs (execute_task k (run le us e))) =
      run-Watched k le vs (execute_task k (run le us e)) after taken w in
    let last : Inv nobody (run le vs (execute_task k (run le us e))) =
      run-Inv le vs (execute_task k (run le us e)) after taken in
    subst (λ g. (places k g ≡ 1) ⊎ HasEnded k g) (sym same) (decided k _ last f)
