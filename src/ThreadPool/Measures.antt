-- ===== src/ThreadPool/Measures.antt =====
-- thread_pool.cpp: what the threads of the pool hold, and sums of it over the threads below a bound.
use tiny_reactor.Base.{
  ℕ, ◌+◌, ◌≡◌, ◌<◌, ap, List, ◌==◌, if◌then◌else◌, total, total-update, update, tally, arith,
}
use tiny_reactor.ThreadPool.{
  Worker, Client, Event, starting, executes, uncounts, exited, counts, Destructor, discounts, works,
  steps, enqueues, removes,
}

-- A worker is counted from its first step on, until it leaves.
unfoldable pub is_active : Worker → ℕ
is_active starting = 0
is_active exited = 0
is_active _ = 1

-- A worker holds a task from its `pop` until it has counted it off `leftover`.
unfoldable pub has_task : Worker → ℕ
has_task (executes _) = 1
has_task uncounts = 1
has_task _ = 0

-- A client has pushed a task that it has not yet counted.
unfoldable pub is_uncounted : Client → ℕ
is_uncounted counts = 1
is_uncounted _ = 0

-- The destructor has popped a task that it has not yet counted off.
unfoldable pub is_discounting : Destructor → ℕ
is_discounting discounts = 1
is_discounting _ = 0

-- A worker is about to run task `k`.
unfoldable pub carries : ℕ → Worker → ℕ
carries k (executes j) = if j == k then 1 else 0
carries k _ = 0

abbrev pub count : ℕ → List ℕ → ℕ
count k xs = tally (λ j. j == k) xs

-- The events of threads below `n`.
abbrev pub InRange : ℕ → Event → Type 0
InRange n (works _ i) = i < n
InRange n (steps _ c) = c < n
InRange n (enqueues c _) = c < n
InRange n (removes c _) = c < n
InRange n _ = Unit

-- A thread that moves from one known place to another moves the sum by the difference.
pub moved {ℓ} :
    {A : Type ℓ} (m : A → ℕ) (n : ℕ) (f : ℕ → A) (i : ℕ) (new : A) {old : A}
    → i < n
    → f i ≡ old
    → total m n (update f i new) + m old ≡ total m n f + m new
moved m n f i new h e = omega (arith, total-update m n f i new h, ap m e)
