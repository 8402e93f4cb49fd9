-- ===== src/Executor/Pooled/Refinement.antt =====
-- The executor on its thread pool does what the executor with a queue of tasks does.
use tiny_reactor.Base.{
  ℕ, ◌≡◌, refl, subst, ap, ◌∙◌, Bool, true, ◌⊎◌, Option, none, some, List, [], ◌∷◌, ltb, ◌==◌,
  if◌then◌else◌, arith, Bool-cases, inl, inr,
}
use tiny_reactor.Executor
use tiny_reactor.Executor.{
  TaskExecutor, Timer, TimerKind, exec_timer, retry_timer, submits, begins, ends, gives_back,
  resubmits, expires, fires, passes, take_expired,
}
use tiny_reactor.Executor.Counts.{places}
use tiny_reactor.Executor.Invariant
use tiny_reactor.Executor.Invariant.{IsIdle, run-retries_bounded}
use tiny_reactor.Executor.Pooled.{
  Pooled, Event, calls, works, steps, acts, pool_step, enqueue_step, run_handler, act, step, run,
}
use tiny_reactor.ThreadPool.{Worker, pops, executes, Client, idle, pushes}

-- The task that another thread than the io thread submits in a step.
unfoldable pub submitted : (pushed : Bool) → ℕ → Client → Option ℕ
submitted true c (pushes k) = if c == 0 then none else some k
submitted _ c _ = none

-- A task is submitted only while it is in no place of the executor.
abbrev pub IsAllowed : Event → Pooled → Type 0
IsAllowed (steps pushed c) s =
    (k : ℕ) → submitted pushed c (s.pool.clients c) ≡ some k → places k s.executor ≡ 0
IsAllowed _ s = Unit

abbrev pub AreAllowed : (ℕ → ℕ → Bool) → List Event → Pooled → Type 0
AreAllowed le [] s = Unit {0}
AreAllowed le (v ∷ vs) s = IsAllowed v s × AreAllowed le vs (step le v s)

-- The executor makes one of its steps or none.
abbrev Took : (ℕ → ℕ → Bool) → TaskExecutor → TaskExecutor → Type 0
Took le e f =
    (f ≡ e) ⊎ ((v : Executor.Event) × Invariant.IsAllowed v e × (f ≡ Executor.step le v e))

module _ (le : ℕ → ℕ → Bool) (s : Pooled) where
  pool_step-Took :
      (acquired : Bool) (i : ℕ) (w : Worker)
      → Took le s.executor (pool_step le acquired i w s).executor
  unfolding pool_step
  pool_step-Took acquired i pops = inr (begins, tt, refl)
  pool_step-Took acquired i (executes k) = inl (ground arith)
  pool_step-Took acquired i w = inl refl

  enqueue_step-Took :
      (pushed : Bool) (c : ℕ) (w : Client)
      → ((k : ℕ) → submitted pushed c w ≡ some k → places k s.executor ≡ 0)
      → Took le s.executor (enqueue_step le pushed c w s).executor
  unfolding enqueue_step submitted
  enqueue_step-Took true c (pushes k) free = elim (Bool-cases (c == 0)) [
    | inl io ↦ rw io (inr (resubmits k, tt, refl))
    | inr other ↦ rw other (inr (submits k, free k (ground arith), refl))
  ]
  enqueue_step-Took pushed c w free = inl refl

  run_handler-Took :
      (i : ℕ) (c : Client) (o : Option (Timer × List Timer))
      → Took le s.executor (run_handler le i c o s).executor
  unfolding run_handler
  run_handler-Took i idle (some (t, rest)) = inr (fires i, tt, refl)
  run_handler-Took i c o = inl refl

  act-Took : (v : Executor.Event) → Took le s.executor (act le v s).executor
  unfolding act
  act-Took (ends k flags) = inr (ends k flags, tt, refl)
  act-Took (gives_back k) = inr (gives_back k, tt, refl)
  act-Took (expires i) = inr (expires i, tt, refl)
  act-Took (passes m) = inr (passes m, tt, refl)
  act-Took (fires i) = run_handler-Took i (s.pool.clients 0) (take_expired i s.executor.timers)
  act-Took v = inl refl

  step-Took : (v : Event) → IsAllowed v s → Took le s.executor (step le v s).executor
  unfolding step
  step-Took (calls c k) h = inl (ground arith)
  step-Took (works acquired i) h = elim (Bool-cases (ltb i s.pool.threads)) [
    | inl known ↦ rw known (pool_step-Took acquired i (s.pool.workers i))
    | inr unknown ↦ rw unknown (inl refl)
  ]
  step-Took (steps pushed c) h = enqueue_step-Took pushed c (s.pool.clients c) h
  step-Took (acts v) h = act-Took v

-- What the executor does is a history of the executor with a queue of tasks.
pub run-Took :
    (le : ℕ → ℕ → Bool) (vs : List Event) (s : Pooled)
    → AreAllowed le vs s
    → (es : List Executor.Event) × ((run le vs s).executor ≡ Executor.run le es s.executor)
      × Invariant.AreAllowed le es s.executor
unfolding run Executor.run
run-Took le [] s h = ([], refl, tt)
run-Took le (v ∷ vs) s h =
    let (es, same, ok) = run-Took le vs (step le v s) h.1 in
    elim (step-Took le s v h.0) [
      | inl stays ↦
          (es, same ∙ ap (Executor.run le es) stays, subst (Invariant.AreAllowed le es) stays ok)
      | inr (u, free, moves) ↦ (
        u ∷ es,
        same ∙ ap (Executor.run le es) moves,
        (free, subst (Invariant.AreAllowed le es) moves ok),
      )
    ]
