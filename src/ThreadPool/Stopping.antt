-- ===== src/ThreadPool/Stopping.antt =====
-- thread_pool.cpp: what the clients and the workers of a stopped pool still do.
use tiny_reactor.Base.{
  ℕ, ◌-◌, ◌≡◌, ◌≤◌, ◌<◌, refl, ap, sym, ◌∙◌, Bool, true, false, List, [], ◌∷◌, ltb, ◌==◌,
  if◌then◌else◌, tally, arith, Bool-cases, inl, inr, ℕ_discrete,
}
use tiny_reactor.ThreadPool.{
  ThreadPool, Worker, Client, Event, starting, loops, waits, pops, executes, uncounts, compares,
  weighs, claims, exchanges, swaps, naps, leaves, exited, idle, refused, checks, pushes, rechecks,
  counts, releases, loads, stores, works, steps, enqueues, removes, adds, shuts_down, destroys,
  frees, drains, discounts, joins, returned, not_called, Destructor, destroy_step, all_exited,
  become, pop_task, try_acquire, worker_step, client_step, begin_call, add_threads, shutdown, drain,
  step, run,
}

-- How many steps a worker of a stopped pool takes at most until it has left.
unfoldable pub rank : Worker → ℕ
rank exited = 0
rank leaves = 1
rank loops = 2
rank starting = 3
rank naps = 3
rank (swaps _) = 4
rank (exchanges _) = 5
rank claims = 6
rank (weighs _) = 7
rank compares = 8
rank uncounts = 9
rank (executes _) = 10
rank pops = 11
rank waits = 12

unfoldable pub is_step_of : ℕ → Event → Bool
is_step_of i (works _ j) = j == i
is_step_of i _ = false

rank-exited : (w : Worker) → rank w ≡ 0 → w ≡ exited
unfolding rank
rank-exited w h = ground arith

rank_bound : (w : Worker) → rank w ≤ 12
unfolding rank
rank_bound w = ground arith

-- What a step leaves of worker `i` and of the flag, `own` being 1 if the step is its own.
record Closer (i own : ℕ) (d e : ThreadPool) : Type 0 where
  stopped : e.stop ≡ true
  known : d.threads ≤ e.threads
  closer : rank (e.workers i) ≤ rank (d.workers i) - own

abbrev own : ℕ → ℕ → ℕ
own j i = if j == i then 1 else 0

module _ {i j : ℕ} (d : ThreadPool) (s : d.stop ≡ true) where
  -- Worker `j` moves to a place that is closer to the exit, and the flag stays.
  placed :
      {w : Worker} (next : Worker) (active sem left : ℕ) (queue finished : List ℕ)
      → d.workers j ≡ w
      → rank next ≤ rank w - 1
      → Closer i (own j i) d (
          become j next (record d {
            active_threads = active;
            task_sem = sem;
            leftover = left;
            queue = queue;
            finished = finished;
          }))
  placed next active sem left queue finished e r = record {
    stopped = s;
    known = omega arith;
    closer = elim (ℕ_discrete j i) [
      | yes same ↦ ground (arith, r, e, ap (λ k. rank (d.workers k)) same, ap rank e)
      | no other ↦ ground (arith, other)
    ];
  }

  pop_task-Closer : (ks : List ℕ) → d.workers j ≡ pops → Closer i (own j i) d (pop_task j ks d)
  unfolding pop_task rank
  pop_task-Closer [] e = placed compares _ _ _ _ _ e (omega arith)
  pop_task-Closer (k ∷ ks) e = placed (executes k) _ _ _ _ _ e (omega arith)

  worker_step-Closer :
      (acquired : Bool) (w : Worker)
      → d.workers j ≡ w
      → Closer i (own j i) d (worker_step acquired j w d)
  unfolding worker_step try_acquire rank
  worker_step-Closer acquired starting e = placed loops _ _ _ _ _ e (omega arith)
  worker_step-Closer acquired loops e = placed _ _ _ _ _ _ e (ground (arith, s))
  worker_step-Closer true waits e = elim (Bool-cases (ltb 0 d.task_sem)) [
    | inl free ↦ rw free (placed pops _ _ _ _ _ e (omega arith))
    | inr taken ↦ rw taken (placed compares _ _ _ _ _ e (omega arith))
  ]
  worker_step-Closer false waits e = placed compares _ _ _ _ _ e (omega arith)
  worker_step-Closer acquired pops e = pop_task-Closer d.queue e
  worker_step-Closer acquired (executes k) e = placed uncounts _ _ _ _ _ e (omega arith)
  worker_step-Closer acquired uncounts e = placed compares _ _ _ _ _ e (omega arith)
  worker_step-Closer acquired compares e = placed (weighs _) _ _ _ _ _ e (omega arith)
  worker_step-Closer acquired (weighs active) e = placed _ _ _ _ _ _ e (ground arith)
  worker_step-Closer acquired claims e = placed (exchanges _) _ _ _ _ _ e (omega arith)
  worker_step-Closer acquired (exchanges old) e = placed _ _ _ _ _ _ e (ground arith)
  worker_step-Closer acquired (swaps old) e = elim (Bool-cases (d.active_threads == old)) [
    | inl same ↦ rw same (placed exited _ _ _ _ _ e (omega arith))
    | inr other ↦ rw other (placed naps _ _ _ _ _ e (omega arith))
  ]
  worker_step-Closer acquired naps e = placed loops _ _ _ _ _ e (omega arith)
  worker_step-Closer acquired leaves e = placed exited _ _ _ _ _ e (omega arith)
  worker_step-Closer acquired exited e = record {
    stopped = s;
    known = omega arith;
    closer = elim (ℕ_discrete j i) [
      | yes same ↦ ground (arith, ap (λ k. rank (d.workers k)) same, ap rank e)
      | no other ↦ ground (arith, other)
    ];
  }

-- A client changes neither the workers nor the flag.
abbrev pub Apart : ThreadPool → ThreadPool → Type 0
Apart d e = (e.workers ≡ d.workers) × (e.stop ≡ d.stop) × (e.threads ≡ d.threads)

pub client_step-Apart :
    (pushed : Bool) (c : ℕ) (w : Client) (d : ThreadPool) → Apart d (client_step pushed c w d)
unfolding client_step
client_step-Apart true c (pushes k) d = (refl, refl, refl)
client_step-Apart false c (pushes k) d = (refl, refl, refl)
client_step-Apart pushed c idle d = (refl, refl, refl)
client_step-Apart pushed c refused d = (refl, refl, refl)
client_step-Apart pushed c (checks k) d = (refl, refl, refl)
client_step-Apart pushed c (rechecks k) d = (refl, refl, refl)
client_step-Apart pushed c counts d = (refl, refl, refl)
client_step-Apart pushed c releases d = (refl, refl, refl)
client_step-Apart pushed c (loads n) d = (refl, refl, refl)
client_step-Apart pushed c (stores n) d = (refl, refl, refl)

apart : {i : ℕ} (d e : ThreadPool) → d.stop ≡ true → Apart d e → Closer i 0 d e
apart {i} d e s (w, t, k) = record {
  stopped = t ∙ s;
  known = omega (arith, k);
  closer = omega (arith, ap (λ f. rank (f i)) w);
}

pub begin_call-Apart : (c : ℕ) (call w : Client) (d : ThreadPool) → Apart d (begin_call c call w d)
unfolding begin_call
begin_call-Apart c call idle d = (refl, refl, refl)
begin_call-Apart c call refused d = (refl, refl, refl)
begin_call-Apart c call (checks k) d = (refl, refl, refl)
begin_call-Apart c call (pushes k) d = (refl, refl, refl)
begin_call-Apart c call (rechecks k) d = (refl, refl, refl)
begin_call-Apart c call counts d = (refl, refl, refl)
begin_call-Apart c call releases d = (refl, refl, refl)
begin_call-Apart c call (loads n) d = (refl, refl, refl)
begin_call-Apart c call (stores n) d = (refl, refl, refl)

drain-Apart : (ks : List ℕ) (d : ThreadPool) → Apart d (drain ks d)
unfolding drain
drain-Apart [] d = (refl, refl, refl)
drain-Apart (k ∷ ks) d = (refl, refl, refl)

pub destroy_step-Apart :
    (w : Destructor) (d : ThreadPool) → d.stop ≡ true → Apart d (destroy_step w d)
unfolding destroy_step
destroy_step-Apart not_called d s = (refl, sym s, refl)
destroy_step-Apart frees d s = (refl, refl, refl)
destroy_step-Apart drains d s = drain-Apart d.queue d
destroy_step-Apart discounts d s = (refl, refl, refl)
destroy_step-Apart joins d s = elim (Bool-cases (all_exited d.threads d.workers)) [
  | inl over ↦ rw over (refl, refl, refl)
  | inr busy ↦ rw busy (refl, refl, refl)
]
destroy_step-Apart returned d s = (refl, refl, refl)

abbrev own_step : ℕ → Event → ℕ
own_step i v = if is_step_of i v then 1 else 0

step-Closer :
    (i : ℕ) (v : Event) (d : ThreadPool)
    → d.stop ≡ true
    → i < d.threads
    → Closer i (own_step i v) d (step v d)
unfolding step add_threads shutdown is_step_of
step-Closer i (works acquired j) d s k = elim (Bool-cases (ltb j d.threads)) [
  | inl known ↦ rw known (worker_step-Closer d s acquired (d.workers j) refl)
  | inr unknown ↦
      rw unknown (record { stopped = s; known = omega arith; closer = ground (arith, unknown) })
]
step-Closer i (steps pushed c) d s k = apart d _ s (client_step-Apart pushed c (d.clients c) d)
step-Closer i (enqueues c t) d s k = apart d _ s (begin_call-Apart c (checks t) (d.clients c) d)
step-Closer i (removes c n) d s k = apart d _ s (begin_call-Apart c (loads n) (d.clients c) d)
step-Closer i (adds n) d s k = record { stopped = s; known = omega arith; closer = omega arith }
step-Closer i shuts_down d s k = apart d _ s (refl, sym s, refl)
step-Closer i destroys d s k = apart d _ s (destroy_step-Apart d.destructor d s)

run_closer :
    (i : ℕ) (vs : List Event) (d : ThreadPool)
    → d.stop ≡ true
    → i < d.threads
    → rank ((run vs d).workers i) ≤ rank (d.workers i) - tally (is_step_of i) vs
unfolding run tally
run_closer i [] d s k = omega arith
run_closer i (v ∷ vs) d s k =
    let c : Closer i (own_step i v) d (step v d) = step-Closer i v d s k in
    omega (arith, c.closer, run_closer i vs (step v d) c.stopped (omega (arith, c.known, k)))

-- Once the pool is stopped, a worker thread leaves by its twelfth step from there at the latest,
-- whatever the other threads do in between.
pub stopped_worker-exited :
    (i : ℕ) (vs : List Event) (d : ThreadPool)
    → d.stop ≡ true
    → i < d.threads
    → 12 ≤ tally (is_step_of i) vs
    → (run vs d).workers i ≡ exited
stopped_worker-exited i vs d s k enough =
    rank-exited _ (omega (arith, run_closer i vs d s k, rank_bound (d.workers i)))
