-- ===== src/ThreadPool/Joining.antt =====
-- thread_pool.cpp: the threads of a pool whose destructor runs can be joined.
use tiny_reactor.Base.{
  ℕ, zero, suc, ◌≡◌, ◌≤◌, ◌<◌, refl, ◌∙◌, true, List, [], ◌∷◌, ltb, tally, arith, All, Bool-cases,
  inl, inr,
}
use tiny_reactor.ThreadPool.{
  ThreadPool, Worker, Event, exited, works, steps, destroys, has_exited, all_exited, step, run,
}
use tiny_reactor.ThreadPool.Stopping.{
  client_step-Apart, destroy_step-Apart, is_step_of, stopped_worker-exited,
}
use tiny_reactor.ThreadPool.WorkerMoves.{worker_step-Worked}
use tiny_reactor.ThreadPool.Unstarted.{worker_step-Local}
use tiny_reactor.ThreadPool.Destroying.{IsDestroying}

-- Every thread has left.
unfoldable pub IsJoined : ThreadPool → Type 0
IsJoined d = all_exited d.threads d.workers ≡ true

-- The events of a destruction leave the flag and the number of threads alone.
record Held (d e : ThreadPool) : Type 0 where
  stopped : e.stop ≡ true
  threads : e.threads ≡ d.threads

step-Held :
    (n : ℕ) (v : Event) (d : ThreadPool) → d.stop ≡ true → IsDestroying n v → Held d (step v d)
unfolding step
step-Held n (works acquired i) d s h = elim (Bool-cases (ltb i d.threads)) [
  | inl known ↦ rw known (record {
    stopped = (worker_step-Worked d h acquired (d.workers i) refl).stop ∙ s;
    threads = (worker_step-Local i d acquired (d.workers i)).threads;
  })
  | inr unknown ↦ rw unknown (record { stopped = s; threads = refl })
]
step-Held n (steps pushed c) d s h =
    let (w, t, k) = client_step-Apart pushed c (d.clients c) d in
    record { stopped = t ∙ s; threads = k }
step-Held n destroys d s h =
    let (w, t, k) = destroy_step-Apart d.destructor d s in record { stopped = t ∙ s; threads = k }
step-Held n v d s h = absurd h

run-Held :
    (n : ℕ) (vs : List Event) (d : ThreadPool)
    → d.stop ≡ true
    → All (IsDestroying n) vs
    → Held d (run vs d)
unfolding run
run-Held n [] d s h = record { stopped = s; threads = refl }
run-Held n (v ∷ vs) d s h =
    let a : Held d (step v d) = step-Held n v d s h.0 in
    let b : Held (step v d) (run vs (step v d)) = run-Held n vs (step v d) a.stopped h.1 in
    record { stopped = b.stopped; threads = b.threads ∙ a.threads }

all_exited-of :
    (t : ℕ) (workers : ℕ → Worker)
    → ((i : ℕ) → i < t → workers i ≡ exited)
    → all_exited t workers ≡ true
unfolding all_exited has_exited
all_exited-of zero workers h = refl
all_exited-of (suc t) workers h =
    rw (all_exited-of t workers (λ i lt. h i (omega (arith, lt)))) (ground (arith, h t))

-- Enough steps of each worker join the threads.
pub workers-join :
    (n : ℕ) (us : List Event) (d : ThreadPool)
    → d.stop ≡ true
    → All (IsDestroying n) us
    → ((i : ℕ) → i < d.threads → 12 ≤ tally (is_step_of i) us)
    → IsJoined (run us d)
unfolding IsJoined
workers-join n us d s h enough =
    let held : Held d (run us d) = run-Held n us d s h in
    all_exited-of (run us d).threads (run us d).workers λ i lt.
      let known : i < d.threads = omega (arith, lt, held.threads) in
      stopped_worker-exited i us d s known (enough i known)
