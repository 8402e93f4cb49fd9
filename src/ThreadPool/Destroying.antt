-- ===== src/ThreadPool/Destroying.antt =====
-- thread_pool.cpp: what the destructor leaves.
use tiny_reactor.Base.{
  ℕ, zero, suc, ◌≡◌, ◌<◌, refl, ap, sym, subst, ◌∙◌, Bool, true, false, List, [], ◌∷◌, ltb, ◌==◌,
  ==_iff, total, arith, All, Bool-cases, inl, inr,
}
use tiny_reactor.ThreadPool.{
  ThreadPool, Worker, Client, Event, waits, pops, swaps, exited, idle, refused, checks, pushes,
  rechecks, counts, releases, loads, stores, works, steps, destroys, pop_task, try_acquire,
  worker_step, answer, client_step, destroy_step, has_exited, all_exited, step, run, drain,
  Destructor, not_called, frees, drains, discounts, joins, returned,
}
use tiny_reactor.ThreadPool.Measures.{InRange, moved}
use tiny_reactor.ThreadPool.WorkerMoves.{Worked, worker_step-Worked}
use tiny_reactor.ThreadPool.Refusing.{is_pushing}

-- What may happen while the destructor runs: threads go on, and nobody begins a call.
abbrev pub IsDestroying : ℕ → Event → Type 0
IsDestroying n (works _ i) = i < n
IsDestroying n (steps _ c) = c < n
IsDestroying n destroys = Unit
IsDestroying n _ = ⊥

pub IsDestroying-InRange : (n : ℕ) (v : Event) → IsDestroying n v → InRange n v
IsDestroying-InRange n (works acquired i) h = h
IsDestroying-InRange n (steps pushed c) h = h
IsDestroying-InRange n destroys h = tt
IsDestroying-InRange n v h = absurd h

-- The destructor has found the queue empty.
unfoldable pub has_drained : Destructor → Bool
has_drained joins = true
has_drained returned = true
has_drained _ = false

-- A pool whose destructor runs, while no client is about to push a task.
pub record Closing (n : ℕ) (d : ThreadPool) : Type 0 where
  pub stopped : d.stop ≡ true
  pub quiet : total is_pushing n d.clients ≡ 0
  pub drained : has_drained d.destructor ≡ true → d.queue ≡ []
  pub joined : d.destructor ≡ returned → all_exited d.threads d.workers ≡ true

has_exited_lem : (w : Worker) → has_exited w ≡ true → w ≡ exited
unfolding has_exited
has_exited_lem w h = ground arith

pub all_exited-at :
    (t : ℕ) (workers : ℕ → Worker) (i : ℕ)
    → all_exited t workers ≡ true
    → i < t
    → workers i ≡ exited
unfolding all_exited has_exited
all_exited-at zero workers i h lt = absurd (omega arith)
all_exited-at (suc t) workers i h lt = elim (Bool-cases (i == t)) [
  | inl last ↦ ap workers ((==_iff i t).0 last) ∙ has_exited_lem (workers t) (ground arith)
  | inr other ↦ all_exited-at t workers i (ground arith) (ground (arith, other))
]

-- A queue that is empty stays so.
worker_step-empty :
    (acquired : Bool) (i : ℕ) (w : Worker) (d : ThreadPool)
    → d.queue ≡ []
    → (worker_step acquired i w d).queue ≡ []
unfolding worker_step try_acquire pop_task
worker_step-empty true i waits d q = ground (arith, q)
worker_step-empty acquired i pops d q = subst (λ ks. (pop_task i ks d).queue ≡ []) (sym q) q
worker_step-empty acquired i (swaps old) d q = ground (arith, q)
worker_step-empty acquired i w d q = q

-- The join is not undone: a worker that has exited does nothing.
worker_step-joined :
    (acquired : Bool) (i : ℕ) (w : Worker) (d : ThreadPool)
    → w ≡ exited
    → all_exited d.threads d.workers ≡ true
    → let e = worker_step acquired i w d in all_exited e.threads e.workers ≡ true
unfolding worker_step
worker_step-joined acquired i w d gone h =
    subst (λ x. let e = worker_step acquired i x d in all_exited e.threads e.workers ≡ true)
      (sym gone) h

module _ {n : ℕ} (d : ThreadPool) (h : Closing n d) where
  open h use {stopped, quiet, drained, joined}

  work-Closing :
      (acquired : Bool) (i : ℕ)
      → i < n
      → i < d.threads
      → Closing n (worker_step acquired i (d.workers i) d)
  work-Closing acquired i lt known =
      let m : Worked n i (d.workers i) d (worker_step acquired i (d.workers i) d) =
        worker_step-Worked d lt acquired (d.workers i) refl in
      record {
        stopped = m.stop ∙ stopped;
        quiet = ap (total is_pushing n) m.clients ∙ quiet;
        drained = λ x.
            worker_step-empty acquired i (d.workers i) d
              (drained (sym (ap has_drained m.destructor) ∙ x));
        joined = λ x.
            let over = joined (sym m.destructor ∙ x) in
            worker_step-joined acquired i (d.workers i) d
              (all_exited-at d.threads d.workers i over known) over;
      }

  -- A client that goes on and pushes nothing.
  away :
      {c : ℕ} {old : Client} (next : Client) (target sem left : ℕ)
      → c < n
      → d.clients c ≡ old
      → is_pushing next ≡ 0
      → Closing n (
          answer c next
            (record d { target_thread_count = target; task_sem = sem; leftover = left }))
  away {c} next target sem left lt e p = record {
    stopped = stopped;
    quiet = omega (arith, quiet, moved is_pushing n d.clients c next lt e, p);
    drained = drained;
    joined = joined;
  }

  client_step-Closing :
      (pushed : Bool) (c : ℕ) (w : Client)
      → c < n
      → d.clients c ≡ w
      → Closing n (client_step pushed c w d)
  unfolding client_step is_pushing
  client_step-Closing pushed c (checks k) lt e = away _ _ _ _ lt e (ground (arith, stopped))
  client_step-Closing pushed c (pushes k) lt e =
      absurd (omega (arith, quiet, moved is_pushing n d.clients c idle lt e))
  client_step-Closing pushed c (rechecks k) lt e = away _ _ _ _ lt e (ground (arith, stopped))
  client_step-Closing pushed c counts lt e = away releases _ _ _ lt e refl
  client_step-Closing pushed c releases lt e = away idle _ _ _ lt e refl
  client_step-Closing pushed c (loads m) lt e = away (stores _) _ _ _ lt e refl
  client_step-Closing pushed c (stores m) lt e = away idle _ _ _ lt e refl
  client_step-Closing pushed c idle lt e = h
  client_step-Closing pushed c refused lt e = h

  drain-Closing : (ks : List ℕ) → d.queue ≡ ks → Closing n (drain ks d)
  unfolding drain has_drained
  drain-Closing [] q = record {
    stopped = stopped;
    quiet = quiet;
    drained = λ x. q;
    joined = λ x. cc;
  }
  drain-Closing (k ∷ ks) q = record {
    stopped = stopped;
    quiet = quiet;
    drained = λ x. cc;
    joined = λ x. cc;
  }

  destroy_step-Closing : (w : Destructor) → d.destructor ≡ w → Closing n (destroy_step w d)
  unfolding destroy_step has_drained
  destroy_step-Closing not_called at = record {
    stopped = refl;
    quiet = quiet;
    drained = λ x. cc;
    joined = λ x. cc;
  }
  destroy_step-Closing frees at = record {
    stopped = stopped;
    quiet = quiet;
    drained = λ x. cc;
    joined = λ x. cc;
  }
  destroy_step-Closing drains at = drain-Closing d.queue refl
  destroy_step-Closing discounts at = record {
    stopped = stopped;
    quiet = quiet;
    drained = λ x. cc;
    joined = λ x. cc;
  }
  destroy_step-Closing joins at = elim (Bool-cases (all_exited d.threads d.workers)) [
    | inl over ↦ rw over (record {
      stopped = stopped;
      quiet = quiet;
      drained = λ x. drained (ap has_drained at);
      joined = λ x. over;
    })
    | inr busy ↦ rw busy h
  ]
  destroy_step-Closing returned at = h

step-Closing :
    (n : ℕ) (v : Event) (d : ThreadPool) → IsDestroying n v → Closing n d → Closing n (step v d)
unfolding step
step-Closing n (works acquired i) d lt h = elim (Bool-cases (ltb i d.threads)) [
  | inl known ↦ rw known (work-Closing d h acquired i lt (ground arith))
  | inr unknown ↦ rw unknown h
]
step-Closing n (steps pushed c) d lt h = client_step-Closing d h pushed c (d.clients c) lt refl
step-Closing n destroys d ok h = destroy_step-Closing d h d.destructor refl
step-Closing n v d banned h = absurd banned

pub run-Closing :
    (n : ℕ) (vs : List Event) (d : ThreadPool)
    → All (IsDestroying n) vs
    → Closing n d
    → Closing n (run vs d)
unfolding run
run-Closing n [] d ok h = h
run-Closing n (v ∷ vs) d ok h = run-Closing n vs (step v d) ok.1 (step-Closing n v d ok.0 h)
