-- ===== src/ThreadPool/Unstarted.antt =====
-- thread_pool.cpp: only the threads of the pool run `worker`.
use tiny_reactor.Base.{
  ℕ, ◌≡◌, refl, ap, sym, ◌∙◌, Bool, true, false, List, [], ◌∷◌, ltb, ◌==◌, arith, Bool-cases, inl,
  inr,
}
use tiny_reactor.ThreadPool.{
  ThreadPool, Worker, Event, starting, waits, pops, swaps, exited, checks, loads, works, steps,
  enqueues, removes, adds, shuts_down, destroys, become, pop_task, try_acquire, worker_step,
  client_step, begin_call, add_threads, shutdown, destroy_step, all_exited, step, run, make_pool,
  drain, Destructor, drains, joins,
}
use tiny_reactor.ThreadPool.Stopping.{client_step-Apart, begin_call-Apart}

-- What a step of the worker `i` leaves alone.
pub record Local (i : ℕ) (d e : ThreadPool) : Type 0 where
  pub threads : e.threads ≡ d.threads
  pub others : (j : ℕ) → (i == j) ≡ false → e.workers j ≡ d.workers j

module _ (i : ℕ) (d : ThreadPool) where
  placed :
      (next : Worker) (active sem left : ℕ) (queue finished : List ℕ)
      → Local i d (
          become i next (record d {
            queue = queue;
            active_threads = active;
            task_sem = sem;
            leftover = left;
            finished = finished;
          }))
  placed next active sem left queue finished = record {
    threads = refl;
    others = λ j other. rw other refl;
  }

  pop_task-Local : (ks : List ℕ) → Local i d (pop_task i ks d)
  unfolding pop_task
  pop_task-Local [] = placed _ _ _ _ _ _
  pop_task-Local (k ∷ ks) = placed _ _ _ _ _ _

  pub worker_step-Local : (acquired : Bool) (w : Worker) → Local i d (worker_step acquired i w d)
  unfolding worker_step try_acquire
  worker_step-Local true waits = elim (Bool-cases (ltb 0 d.task_sem)) [
    | inl free ↦ rw free (placed _ _ _ _ _ _)
    | inr taken ↦ rw taken (placed _ _ _ _ _ _)
  ]
  worker_step-Local acquired pops = pop_task-Local d.queue
  worker_step-Local acquired (swaps old) = elim (Bool-cases (d.active_threads == old)) [
    | inl same ↦ rw same (placed _ _ _ _ _ _)
    | inr other ↦ rw other (placed _ _ _ _ _ _)
  ]
  worker_step-Local acquired exited = record { threads = refl; others = λ j other. refl }
  worker_step-Local acquired w = placed _ _ _ _ _ _

-- A worker that has no thread has not started.
abbrev pub Unstarted : ThreadPool → Type 0
Unstarted d = (j : ℕ) → ltb j d.threads ≡ false → d.workers j ≡ starting

stays :
    (d e : ThreadPool) → e.workers ≡ d.workers → e.threads ≡ d.threads → Unstarted d → Unstarted e
stays d e w t u j h = ap (λ f. f j) w ∙ u j (sym (ap (ltb j) t) ∙ h)

work-Unstarted :
    (i : ℕ) (d e : ThreadPool) → ltb i d.threads ≡ true → Local i d e → Unstarted d → Unstarted e
work-Unstarted i d e known l u j h = elim (Bool-cases (i == j)) [
  | inl same ↦ absurd (ground (arith, known, h, l.threads))
  | inr other ↦ l.others j other ∙ u j (sym (ap (ltb j) l.threads) ∙ h)
]

destroy_step-Unstarted :
    (w : Destructor) (d : ThreadPool) → Unstarted d → Unstarted (destroy_step w d)
unfolding destroy_step drain
destroy_step-Unstarted drains d u = by_queue d.queue
  where
    by_queue : (ks : List ℕ) → Unstarted (drain ks d)
    by_queue [] = u
    by_queue (k ∷ ks) = u
destroy_step-Unstarted joins d u = elim (Bool-cases (all_exited d.threads d.workers)) [
  | inl over ↦ rw over u
  | inr busy ↦ rw busy u
]
destroy_step-Unstarted w d u = u

step-Unstarted : (v : Event) (d : ThreadPool) → Unstarted d → Unstarted (step v d)
unfolding step add_threads shutdown
step-Unstarted (works acquired i) d u = elim (Bool-cases (ltb i d.threads)) [
  | inl known ↦
      rw known (work-Unstarted i d _ known (worker_step-Local i d acquired (d.workers i)) u)
  | inr unknown ↦ rw unknown u
]
step-Unstarted (steps pushed c) d u =
    let (w, s, t) = client_step-Apart pushed c (d.clients c) d in
    stays d (client_step pushed c (d.clients c) d) w t u
step-Unstarted (enqueues c k) d u =
    let (w, s, t) = begin_call-Apart c (checks k) (d.clients c) d in
    stays d (begin_call c (checks k) (d.clients c) d) w t u
step-Unstarted (removes c m) d u =
    let (w, s, t) = begin_call-Apart c (loads m) (d.clients c) d in
    stays d (begin_call c (loads m) (d.clients c) d) w t u
step-Unstarted (adds m) d u = λ j h. u j (ground (arith, h))
step-Unstarted shuts_down d u = u
step-Unstarted destroys d u = destroy_step-Unstarted d.destructor d u

pub run-Unstarted : (vs : List Event) (d : ThreadPool) → Unstarted d → Unstarted (run vs d)
unfolding run
run-Unstarted [] d u = u
run-Unstarted (v ∷ vs) d u = run-Unstarted vs (step v d) (step-Unstarted v d u)

pub make_pool-Unstarted : (m : ℕ) → Unstarted (make_pool m)
unfolding make_pool
make_pool-Unstarted m j h = refl
