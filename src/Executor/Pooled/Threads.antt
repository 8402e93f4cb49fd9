-- ===== src/Executor/Pooled/Threads.antt =====
-- task_executor.cpp with thread_pool.cpp: the tasks that are being run are no more than the threads.
use tiny_reactor.Base.{
  ℕ, zero, suc, ◌+◌, Bool, ◌≡◌, ◌≤◌, refl, ap, true, List, [], ◌∷◌, ◌++◌, ◌==◌, ==_iff, total,
  tally, tally-append, length, length-append, arith, Option-cases, inl, inr,
}
use tiny_reactor.Executor.{TaskExecutor, take_task}
use tiny_reactor.Executor.Counts.{tally-take_task, length-take_task}
use tiny_reactor.Executor.Invariant.{IsIdle}
use tiny_reactor.Executor.Pooled.{Pooled, Event, run}
use tiny_reactor.Executor.Pooled.Effects.{tally_none}
use tiny_reactor.Executor.Pooled.Coherent.{Coherent}
use tiny_reactor.Executor.Pooled.Kept.{run-Coherent}
use tiny_reactor.Executor.Pooled.PoolRefinement.{on_pool, on_pool-Coherent}
use tiny_reactor.ThreadPool.{Worker, executes}
use tiny_reactor.ThreadPool.Measures.{carries}

-- The tasks whose function runs.
firsts : List (ℕ × ℕ) → List ℕ
firsts [] = []
firsts ((k, i) ∷ rs) = k ∷ firsts rs

tally-firsts :
    (k : ℕ) (rs : List (ℕ × ℕ))
    → tally (λ j. j == k) (firsts rs) ≡ tally (λ (r : ℕ × ℕ). r.0 == k) rs
unfolding tally firsts
tally-firsts k [] = refl
tally-firsts k ((j, i) ∷ rs) = ground (arith, tally-firsts k rs)

length-firsts : (rs : List (ℕ × ℕ)) → length (firsts rs) ≡ length rs
unfolding firsts
length-firsts [] = refl
length-firsts ((j, i) ∷ rs) = ground (arith, length-firsts rs)

-- Each of `n` workers carries one task at most.
Fits : ℕ → (ℕ → Worker) → List ℕ → Type 0
Fits n workers js = (k : ℕ) → tally (λ j. j == k) js ≤ total (carries k) n workers

-- The tasks that are left when the last worker's is taken off fit on the others.
tally_same :
    (k j : ℕ) (js : List ℕ) → (k == j) ≡ true → tally (λ i. i == k) js ≡ tally (λ i. i == j) js
tally_same k j js same = ap (λ x. tally (λ i. i == x) js) ((==_iff k j).0 same)

others-Fits :
    (n : ℕ) (workers : ℕ → Worker) (w : Worker) (js : List ℕ)
    → ((k : ℕ) → tally (λ j. j == k) js ≤ carries k w + total (carries k) n workers)
    → (ks : List ℕ) × Fits n workers ks × (length js ≤ suc (length ks))
unfolding carries Fits
others-Fits n workers (executes k) js h = elim (Option-cases (take_task k js)) [
  | inl gone ↦ (
    js,
    (λ j. ground (arith, h j, ==_iff k j, tally_none k js gone, tally_same k j js)),
    omega arith,
  )
  | inr (ks, found) ↦ (
    ks,
    (λ j. ground (arith, h j, tally-take_task (λ i. i == j) k js ks found)),
    omega (arith, length-take_task k js ks found),
  )
]
others-Fits n workers w js h = (js, (λ k. omega (arith, h k)), omega arith)

Fits-length : (n : ℕ) (workers : ℕ → Worker) (js : List ℕ) → Fits n workers js → length js ≤ n
unfolding total Fits tally
Fits-length zero workers [] h = omega arith
Fits-length zero workers (j ∷ js) h = absurd (ground (arith, h j, ==_iff j j))
Fits-length (suc n) workers js h =
    let (ks, fits, le) = others-Fits n workers (workers n) js h in
    omega (arith, le, Fits-length n workers ks fits)

fitting :
    (n : ℕ) (s : Pooled)
    → Coherent n s
    → Fits n s.pool.workers (firsts s.executor.running ++ s.executor.refused)
unfolding Fits
fitting n s c k = ground (
  arith,
  c.worked k,
  tally-append (λ j. j == k) (firsts s.executor.running) s.executor.refused,
  tally-firsts k s.executor.running,
)

-- An executor that has no work yet is put on a new pool of `n` threads. However the steps of the
-- threads, the timers and the task functions interleave then, it runs at most `n` tasks at once,
-- those included that were refused a retry and still count in `retrying_cnt`.
pub run-running_le :
    (le : ℕ → ℕ → Bool) (n : ℕ) (vs : List Event) (e : TaskExecutor)
    → IsIdle e
    → let s = run le vs (on_pool n e) in length s.executor.running + length s.executor.refused ≤ n
run-running_le le n vs e h =
    let c : Coherent n (run le vs (on_pool n e)) =
      run-Coherent le vs (on_pool n e) (on_pool-Coherent n e h) in
    let f : TaskExecutor = (run le vs (on_pool n e)).executor in
    ground (
      arith,
      Fits-length n (run le vs (on_pool n e)).pool.workers (firsts f.running ++ f.refused)
          (fitting n (run le vs (on_pool n e)) c),
      length-append (firsts f.running) f.refused,
      length-firsts f.running,
    )
