-- ===== src/ThreadPool/Wakeups.antt =====
-- thread_pool.cpp: a task in the queue has a release of the semaphore that wakes a worker for it.
use tiny_reactor.Base.{
  ℕ, ◌+◌, ◌≡◌, ◌≤◌, ◌<◌, refl, Bool, true, false, List, [], ◌∷◌, ltb, ◌==◌, total, arith, All,
  length, length-append, Bool-cases, inl, inr,
}
use tiny_reactor.ThreadPool.{
  ThreadPool, Worker, Client, Event, starting, loops, waits, pops, executes, uncounts, compares,
  weighs, claims, exchanges, swaps, naps, leaves, exited, idle, refused, checks, pushes, rechecks,
  counts, releases, loads, stores, works, steps, enqueues, removes, adds, shuts_down, destroys,
  Destructor, not_called, frees, drains, discounts, joins, returned, all_exited, become, answer,
  pop_task, try_acquire, worker_step, client_step, begin_call, add_threads, shutdown, destroy_step,
  drain, step, run, make_pool, overruns, overruns_client, overruns_destructor,
}
use tiny_reactor.ThreadPool.Measures.{InRange, moved}

-- A client has pushed a task and not yet released the semaphore for it.
unfoldable pub is_signalling : Client → ℕ
is_signalling counts = 1
is_signalling releases = 1
is_signalling _ = 0

-- A worker has acquired the semaphore and not yet looked into the queue.
unfoldable pub is_popping : Worker → ℕ
is_popping pops = 1
is_popping _ = 0

abbrev pub wakeups : ℕ → ThreadPool → ℕ
wakeups n d = d.task_sem + total is_signalling n d.clients + total is_popping n d.workers

abbrev pub IsAwake : ℕ → ThreadPool → Type 0
IsAwake n d = length d.queue ≤ wakeups n d

module _ {n : ℕ} (d : ThreadPool) (awake : IsAwake n d) where
  -- A worker moves; it is in `pops` neither before nor after.
  placed :
      {i : ℕ} {old : Worker} (next : Worker)
      → i < n
      → d.workers i ≡ old
      → is_popping old ≡ 0
      → is_popping next ≡ 0
      → IsAwake n (become i next d)
  placed {i} next h e o p = omega (arith, awake, moved is_popping n d.workers i next h e, o, p)

  pop_task-IsAwake :
      (i : ℕ) (ks : List ℕ)
      → i < n
      → d.workers i ≡ pops
      → d.queue ≡ ks
      → IsAwake n (pop_task i ks d)
  unfolding pop_task is_popping
  pop_task-IsAwake i [] h e q = ground (arith, q)
  pop_task-IsAwake i (k ∷ ks) h e q =
      ground (arith, q, awake, moved is_popping n d.workers i (executes k) h e)

  try_acquire-IsAwake :
      (acquired : Bool) (i : ℕ) → i < n → d.workers i ≡ waits → IsAwake n (try_acquire acquired i d)
  unfolding try_acquire is_popping
  try_acquire-IsAwake true i h e = elim (Bool-cases (ltb 0 d.task_sem)) [
    | inl free ↦ rw free (ground (arith, free, awake, moved is_popping n d.workers i pops h e))
    | inr taken ↦ rw taken (placed compares h e refl refl)
  ]
  try_acquire-IsAwake false i h e = placed compares h e refl refl

  worker_step-IsAwake :
      (acquired : Bool) (i : ℕ) (w : Worker)
      → i < n
      → d.workers i ≡ w
      → IsAwake n (worker_step acquired i w d)
  unfolding worker_step is_popping
  worker_step-IsAwake acquired i starting h e = placed loops h e refl refl
  worker_step-IsAwake acquired i loops h e = placed _ h e refl (ground arith)
  worker_step-IsAwake acquired i waits h e = try_acquire-IsAwake acquired i h e
  worker_step-IsAwake acquired i pops h e = pop_task-IsAwake i d.queue h e refl
  worker_step-IsAwake acquired i (executes k) h e = placed uncounts h e refl refl
  worker_step-IsAwake acquired i uncounts h e = placed compares h e refl refl
  worker_step-IsAwake acquired i compares h e = placed (weighs _) h e refl refl
  worker_step-IsAwake acquired i (weighs active) h e = placed _ h e refl (ground arith)
  worker_step-IsAwake acquired i claims h e = placed (exchanges _) h e refl refl
  worker_step-IsAwake acquired i (exchanges old) h e = placed _ h e refl (ground arith)
  worker_step-IsAwake acquired i (swaps old) h e = elim (Bool-cases (d.active_threads == old)) [
    | inl same ↦ rw same (placed exited h e refl refl)
    | inr other ↦ rw other (placed naps h e refl refl)
  ]
  worker_step-IsAwake acquired i naps h e = placed loops h e refl refl
  worker_step-IsAwake acquired i leaves h e = placed exited h e refl refl
  worker_step-IsAwake acquired i exited h e = awake

  -- A client moves; what it has to signal stays.
  asked :
      {c : ℕ} {old : Client} (next : Client)
      → c < n
      → d.clients c ≡ old
      → is_signalling old ≡ is_signalling next
      → IsAwake n (answer c next d)
  asked {c} next h e s = omega (arith, awake, moved is_signalling n d.clients c next h e, s)

  client_step-IsAwake :
      (pushed : Bool) (c : ℕ) (w : Client)
      → c < n
      → d.clients c ≡ w
      → overruns_client w d ≡ false
      → IsAwake n (client_step pushed c w d)
  unfolding client_step is_signalling overruns_client
  client_step-IsAwake pushed c (checks k) h e t = asked _ h e (ground arith)
  client_step-IsAwake true c (pushes k) h e t =
      omega
        (arith, awake, moved is_signalling n d.clients c counts h e, length-append d.queue (k ∷ []))
  client_step-IsAwake false c (pushes k) h e t = asked (rechecks k) h e refl
  client_step-IsAwake pushed c (rechecks k) h e t = asked _ h e (ground arith)
  client_step-IsAwake pushed c counts h e t = asked releases h e refl
  client_step-IsAwake pushed c releases h e t =
      ground (arith, t, awake, moved is_signalling n d.clients c idle h e)
  client_step-IsAwake pushed c (loads m) h e t = asked (stores _) h e refl
  client_step-IsAwake pushed c (stores m) h e t = asked idle h e refl
  client_step-IsAwake pushed c idle h e t = awake
  client_step-IsAwake pushed c refused h e t = awake

  begin_call-IsAwake :
      (c : ℕ) (call w : Client)
      → is_signalling call ≡ 0
      → c < n
      → d.clients c ≡ w
      → IsAwake n (begin_call c call w d)
  unfolding begin_call is_signalling
  begin_call-IsAwake c call idle u h e = asked call h e (omega (arith, u))
  begin_call-IsAwake c call refused u h e = asked call h e (omega (arith, u))
  begin_call-IsAwake c call w u h e = awake

drain-IsAwake :
    (n : ℕ) (ks : List ℕ) (d : ThreadPool) → d.queue ≡ ks → IsAwake n d → IsAwake n (drain ks d)
unfolding drain
drain-IsAwake n [] d q a = a
drain-IsAwake n (k ∷ ks) d q a = ground (arith, a, q)

destroy_step-IsAwake :
    (n : ℕ) (w : Destructor) (d : ThreadPool)
    → overruns_destructor w d ≡ false
    → IsAwake n d
    → IsAwake n (destroy_step w d)
unfolding destroy_step overruns_destructor
destroy_step-IsAwake n not_called d t a = a
destroy_step-IsAwake n frees d t a = ground (arith, t, a)
destroy_step-IsAwake n drains d t a = drain-IsAwake n d.queue d refl a
destroy_step-IsAwake n discounts d t a = a
destroy_step-IsAwake n joins d t a = elim (Bool-cases (all_exited d.threads d.workers)) [
  | inl over ↦ rw over a
  | inr busy ↦ rw busy a
]
destroy_step-IsAwake n returned d t a = a

step-IsAwake :
    (n : ℕ) (v : Event) (d : ThreadPool)
    → InRange n v
    → overruns v d ≡ false
    → IsAwake n d
    → IsAwake n (step v d)
unfolding step add_threads shutdown is_signalling overruns
step-IsAwake n (works acquired i) d h t a = elim (Bool-cases (ltb i d.threads)) [
  | inl known ↦ rw known (worker_step-IsAwake d a acquired i (d.workers i) h refl)
  | inr unknown ↦ rw unknown a
]
step-IsAwake n (steps pushed c) d h t a = client_step-IsAwake d a pushed c (d.clients c) h refl t
step-IsAwake n (enqueues c k) d h t a =
    begin_call-IsAwake d a c (checks k) (d.clients c) refl h refl
step-IsAwake n (removes c m) d h t a = begin_call-IsAwake d a c (loads m) (d.clients c) refl h refl
step-IsAwake n (adds m) d h t a = a
step-IsAwake n shuts_down d h t a = a
step-IsAwake n destroys d h t a = destroy_step-IsAwake n d.destructor d t a

-- No release in a run goes beyond the maximum of the semaphore.
unfoldable pub AreTimely : List Event → ThreadPool → Type 0
AreTimely [] d = Unit
AreTimely (v ∷ vs) d = (overruns v d ≡ false) × AreTimely vs (step v d)

from :
    (n : ℕ) (vs : List Event) (d : ThreadPool)
    → All (InRange n) vs
    → AreTimely vs d
    → IsAwake n d
    → IsAwake n (run vs d)
unfolding run AreTimely
from n [] d h t a = a
from n (v ∷ vs) d h t a = from n vs (step v d) h.1 t.1 (step-IsAwake n v d h.0 t.0 a)

make_pool-IsAwake : (n m : ℕ) → IsAwake n (make_pool m)
unfolding make_pool
make_pool-IsAwake n m = omega arith

-- After any interleaving of workers and clients numbered below `n` in which no release goes beyond
-- the maximum of the semaphore, the queue holds no more tasks than the semaphore counts, with the
-- clients that have yet to release it and the workers that have acquired it and are about to look
-- into the queue.
pub run-IsAwake :
    (n m : ℕ) (vs : List Event)
    → All (InRange n) vs
    → AreTimely vs (make_pool m)
    → IsAwake n (run vs (make_pool m))
run-IsAwake n m vs h t = from n vs (make_pool m) h t (make_pool-IsAwake n m)
