-- ===== src/ThreadPool/Destroyed.antt =====
-- thread_pool.cpp: the pool when its destructor has returned.
use tiny_reactor.Base.{
  ℕ, zero, suc, ◌+◌, ◌≡◌, ◌%◌, ◌^◌, refl, ap, sym, subst, tally, ◌∙◌, true, [], ltb, total, arith,
  length, Bool-cases, inl, inr,
}
use tiny_reactor.ThreadPool.{
  ThreadPool, Worker, starting, exited, destroys, not_called, returned, destroy_step, all_exited,
  step, get_tasks_left,
}
use tiny_reactor.ThreadPool.Measures.{carries, count, has_task, is_uncounted, is_discounting}
use tiny_reactor.ThreadPool.Accounting.{Accounts}
use tiny_reactor.ThreadPool.Refusing.{is_pushing}
use tiny_reactor.ThreadPool.Unstarted.{Unstarted}
use tiny_reactor.ThreadPool.Destroying.{Closing, has_drained, all_exited-at}

total_zeros {ℓ} :
    {A : Type ℓ} (m : A → ℕ) (n : ℕ) (f : ℕ → A) → ((i : ℕ) → m (f i) ≡ 0) → total m n f ≡ 0
unfolding total
total_zeros m zero f h = refl
total_zeros m (suc n) f h = omega (arith, h n, total_zeros m n f h)

-- The workers of a pool whose threads are joined hold nothing.
empty_handed :
    (m : Worker → ℕ) (n : ℕ) (d : ThreadPool)
    → m exited ≡ 0
    → m starting ≡ 0
    → Unstarted d
    → all_exited d.threads d.workers ≡ true
    → total m n d.workers ≡ 0
empty_handed m n d gone new u over = total_zeros m n d.workers λ i.
    elim (Bool-cases (ltb i d.threads)) [
      | inl known ↦ ap m (all_exited-at d.threads d.workers i over (ground arith)) ∙ gone
      | inr unknown ↦ ap m (u i unknown) ∙ new
    ]

pub begun-Closing :
    (n : ℕ) (d : ThreadPool)
    → d.destructor ≡ not_called
    → total is_pushing n d.clients ≡ 0
    → Closing n (step destroys d)
unfolding step has_drained destroy_step
begun-Closing n d at quiet =
    subst (λ w. Closing n (destroy_step w d)) (sym at)
      (record { stopped = refl; quiet = quiet; drained = λ x. cc; joined = λ x. cc })

-- The queue is empty, every thread has left, the task `k` has run or been thrown away by the destructor
-- as often as it was pushed, and `get_tasks_left` and the tasks that clients have still to count make
-- up 0, as a 64-bit number.
abbrev pub Settled : (n k : ℕ) → ThreadPool → Type 0
Settled n k e =
    (e.queue ≡ [])
    × (all_exited e.threads e.workers ≡ true)
    × (count k e.accepted ≡ count k e.finished + count k e.discarded)
    × ((get_tasks_left e + total is_uncounted n e.clients) % 2 ^ 64 ≡ 0)

-- What the invariants say of a pool whose destructor has returned.
pub settled :
    (n k : ℕ) (e : ThreadPool)
    → Closing n e
    → Accounts n e
    → Unstarted e
    → e.destructor ≡ returned
    → Settled n k e
unfolding has_drained carries has_task is_discounting tally
settled n k e c a u over =
    let empty : e.queue ≡ [] = c.drained (ap has_drained over) in
    let joined : all_exited e.threads e.workers ≡ true = c.joined over in
    (
      empty,
      joined,
      omega (arith, a.tasks k, ap (count k) empty, empty_handed (carries k) n e refl refl u joined),
      omega (
        arith,
        a.left,
        ap length empty,
        ap is_discounting over,
        empty_handed has_task n e refl refl u joined,
      ),
    )
