-- ===== src/ThreadPool/Turns.antt =====
-- thread_pool.cpp: the steps of a worker alone, up to the end of the first task in the queue.
use tiny_reactor.Base.{
  ℕ, zero, suc, ◌≡◌, ◌≤◌, ◌<◌, refl, subst, sym, ap, ◌∙◌, true, false, List, [], ◌∷◌, ltb, ==_iff,
  if◌then◌else◌, arith,
}
use tiny_reactor.ThreadPool.{
  ThreadPool, Worker, Event, starting, loops, waits, pops, executes, naps, leaves, works, become,
  pop_task, try_acquire, worker_step, step, run,
}

-- The worker `i` makes `r` steps.
unfoldable pub turns : ℕ → ℕ → List Event
turns i zero = []
turns i (suc r) = works true i ∷ turns i r

-- In at most `bound` steps of the worker `i` alone, `k` is run.
pub record Serves (i k bound : ℕ) (d : ThreadPool) : Type 0 where
  pub steps_made : ℕ
  pub soon : steps_made ≤ bound
  pub before : List ℕ
  pub served : (run (turns i steps_made) d).finished ≡ k ∷ before

-- The pool runs, `js` is its queue, and the worker `i` is at `w`.
pub record Ready (i : ℕ) (js : List ℕ) (w : Worker) (d : ThreadPool) : Type 0 where
  pub runs : d.stop ≡ false
  pub waiting : d.queue ≡ js
  pub known : ltb i d.threads ≡ true
  pub place : d.workers i ≡ w

own_step :
    {i : ℕ} {js : List ℕ} {w : Worker} (d : ThreadPool)
    → Ready i js w d
    → step (works true i) d ≡ worker_step true i w d
unfolding step
own_step {i} d r = rw r.known (ap (λ x. worker_step true i x d) r.place)

pub arrived :
    {i : ℕ} {js ks : List ℕ} {w : Worker} (next : Worker) (active sem left : ℕ)
    (queue finished : List ℕ) (d : ThreadPool)
    → Ready i js w d
    → queue ≡ ks
    → Ready i ks next (
        become i next (record d {
          queue = queue;
          active_threads = active;
          task_sem = sem;
          leftover = left;
          finished = finished;
        }))
arrived {i} next active sem left queue finished d r q = record {
  runs = r.runs;
  waiting = q;
  known = r.known;
  place = ground (arith, ==_iff i i);
}

-- The worker makes a step, and then serves `k`.
pub turn :
    {i k bound : ℕ} {js : List ℕ} {w : Worker} (d : ThreadPool)
    → Ready i js w d
    → Serves i k bound (worker_step true i w d)
    → Serves i k (suc bound) d
unfolding run turns
turn {i} d r s = record {
  steps_made = suc s.steps_made;
  soon = omega (arith, s.soon);
  before = s.before;
  served = ap (λ e. (run (turns i s.steps_made) e).finished) (own_step d r) ∙ s.served;
}

from_executes :
    {i k : ℕ} {js : List ℕ} (d : ThreadPool) → Ready i js (executes k) d → Serves i k 1 d
unfolding worker_step turns run
from_executes d r =
    turn d r (record { steps_made = 0; soon = omega arith; before = d.finished; served = refl })

from_pops : {i k : ℕ} {ks : List ℕ} (d : ThreadPool) → Ready i (k ∷ ks) pops d → Serves i k 2 d
unfolding worker_step pop_task
from_pops {i} {k} d r = turn d r (
    subst (λ q. Serves i k 1 (pop_task i q d)) (sym r.waiting)
      (from_executes _ (arrived (executes k) _ _ _ _ _ d r refl)))

module _ {i k : ℕ} {ks : List ℕ} (d : ThreadPool) (free : 0 < d.task_sem) where
  pub from_waits : Ready i (k ∷ ks) waits d → Serves i k 3 d
  unfolding worker_step try_acquire
  from_waits r =
      let wakes : ltb 0 d.task_sem ≡ true = ground arith in
      turn d r (rw wakes (from_pops _ (arrived pops _ _ _ _ _ d r r.waiting)))

module _ {i k : ℕ} {ks : List ℕ} (d : ThreadPool) (free : 0 < d.task_sem) where
  pub from_loops : Ready i (k ∷ ks) loops d → Serves i k 4 d
  unfolding worker_step
  from_loops r = turn d r (
      subst (λ b. Serves i k 3 (become i (if b then leaves else waits) d)) (sym r.runs)
        (from_waits _ free (arrived waits _ _ _ _ _ d r r.waiting)))

module _ {i k : ℕ} {ks : List ℕ} (d : ThreadPool) (free : 0 < d.task_sem) where
  pub from_naps : Ready i (k ∷ ks) naps d → Serves i k 5 d
  unfolding worker_step
  from_naps r = turn d r (from_loops _ free (arrived loops _ _ _ _ _ d r r.waiting))

  pub from_starting : Ready i (k ∷ ks) starting d → Serves i k 5 d
  unfolding worker_step
  from_starting r = turn d r (from_loops _ free (arrived loops _ _ _ _ _ d r r.waiting))

pub later :
    {i k bound more : ℕ} (d : ThreadPool) → Serves i k bound d → bound ≤ more → Serves i k more d
later d s le = record {
  steps_made = s.steps_made;
  soon = omega (arith, s.soon, le);
  before = s.before;
  served = s.served;
}
