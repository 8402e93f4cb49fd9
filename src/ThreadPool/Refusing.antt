-- ===== src/ThreadPool/Refusing.antt =====
-- thread_pool.cpp: `enqueue` on a stopped pool.
use tiny_reactor.Base.{
  ℕ, ◌+◌, ◌≡◌, ◌≤◌, ◌<◌, refl, ap, ◌∙◌, update, Bool, true, false, List, [], ◌∷◌, ltb, total, arith,
  All, length, Bool-cases, inl, inr,
}
use tiny_reactor.ThreadPool.{
  ThreadPool, Worker, Client, Event, idle, refused, checks, pushes, rechecks, counts, releases,
  loads, stores, works, steps, enqueues, removes, adds, shuts_down, destroys, client_step,
  Destructor, not_called, frees, drains, discounts, joins, returned, all_exited, begin_call,
  add_threads, shutdown, destroy_step, drain, step, run,
}
use tiny_reactor.ThreadPool.Measures.{InRange, moved}
use tiny_reactor.ThreadPool.WorkerMoves.{Worked, worker_step-Worked}

-- A client that is past its check of the flag and about to push its task.
unfoldable pub is_pushing : Client → ℕ
is_pushing (pushes _) = 1
is_pushing _ = 0

-- The tasks that were pushed, and those that still may be.
abbrev pub admitted : ℕ → ThreadPool → ℕ
admitted n d = length d.accepted + total is_pushing n d.clients

-- What a step does to a stopped pool.
record Shut (n : ℕ) (d e : ThreadPool) : Type 0 where
  stopped : e.stop ≡ true
  no_more : admitted n e ≤ admitted n d

module _ (n : ℕ) (d : ThreadPool) (s : d.stop ≡ true) where
  unchanged : Shut n d d
  unchanged = record { stopped = s; no_more = omega arith }

  -- A client moves to a place that is no push.
  away :
      {c : ℕ} {old : Client} (next : Client) (target sem left : ℕ)
      → c < n
      → d.clients c ≡ old
      → is_pushing next ≡ 0
      → Shut n d (record d {
        clients = update d.clients c next;
        target_thread_count = target;
        task_sem = sem;
        leftover = left;
      })
  away {c} next target sem left h e p = record {
    stopped = s;
    no_more = omega (arith, moved is_pushing n d.clients c next h e, p);
  }

  client_step-Shut :
      (pushed : Bool) (c : ℕ) (w : Client)
      → c < n
      → d.clients c ≡ w
      → Shut n d (client_step pushed c w d)
  unfolding client_step is_pushing
  client_step-Shut pushed c (checks k) h e = away _ _ _ _ h e (ground (arith, s))
  client_step-Shut true c (pushes k) h e = record {
    stopped = s;
    no_more = omega (arith, moved is_pushing n d.clients c counts h e);
  }
  client_step-Shut false c (pushes k) h e = away (rechecks k) _ _ _ h e refl
  client_step-Shut pushed c (rechecks k) h e = away _ _ _ _ h e (ground (arith, s))
  client_step-Shut pushed c counts h e = away releases _ _ _ h e refl
  client_step-Shut pushed c releases h e = away idle _ _ _ h e refl
  client_step-Shut pushed c (loads m) h e = away (stores _) _ _ _ h e refl
  client_step-Shut pushed c (stores m) h e = away idle _ _ _ h e refl
  client_step-Shut pushed c idle h e = unchanged
  client_step-Shut pushed c refused h e = unchanged

  begin_call-Shut :
      (c : ℕ) (call w : Client)
      → is_pushing call ≡ 0
      → c < n
      → d.clients c ≡ w
      → Shut n d (begin_call c call w d)
  unfolding begin_call is_pushing
  begin_call-Shut c call idle u h e = away call _ _ _ h e u
  begin_call-Shut c call refused u h e = away call _ _ _ h e u
  begin_call-Shut c call (checks k) u h e = unchanged
  begin_call-Shut c call (pushes k) u h e = unchanged
  begin_call-Shut c call (rechecks k) u h e = unchanged
  begin_call-Shut c call counts u h e = unchanged
  begin_call-Shut c call releases u h e = unchanged
  begin_call-Shut c call (loads m) u h e = unchanged
  begin_call-Shut c call (stores m) u h e = unchanged

  drain-Shut : (ks : List ℕ) → Shut n d (drain ks d)
  unfolding drain
  drain-Shut [] = record { stopped = s; no_more = omega arith }
  drain-Shut (k ∷ ks) = record { stopped = s; no_more = omega arith }

  destroy_step-Shut : (w : Destructor) → Shut n d (destroy_step w d)
  unfolding destroy_step
  destroy_step-Shut not_called = record { stopped = refl; no_more = omega arith }
  destroy_step-Shut frees = record { stopped = s; no_more = omega arith }
  destroy_step-Shut drains = drain-Shut d.queue
  destroy_step-Shut discounts = record { stopped = s; no_more = omega arith }
  destroy_step-Shut joins = elim (Bool-cases (all_exited d.threads d.workers)) [
    | inl over ↦ rw over (record { stopped = s; no_more = omega arith })
    | inr busy ↦ rw busy unchanged
  ]
  destroy_step-Shut returned = unchanged

  Worked-Shut : {i : ℕ} {w : Worker} (e : ThreadPool) → Worked n i w d e → Shut n d e
  Worked-Shut e m = record {
    stopped = m.stop ∙ s;
    no_more = omega (arith, ap length m.accepted, ap (total is_pushing n) m.clients);
  }

  step-Shut : (v : Event) → InRange n v → Shut n d (step v d)
  unfolding step add_threads shutdown is_pushing
  step-Shut (works acquired i) h = elim (Bool-cases (ltb i d.threads)) [
    | inl known ↦ rw known (Worked-Shut _ (worker_step-Worked d h acquired (d.workers i) refl))
    | inr unknown ↦ rw unknown unchanged
  ]
  step-Shut (steps pushed c) h = client_step-Shut pushed c (d.clients c) h refl
  step-Shut (enqueues c k) h = begin_call-Shut c (checks k) (d.clients c) refl h refl
  step-Shut (removes c m) h = begin_call-Shut c (loads m) (d.clients c) refl h refl
  step-Shut (adds m) h = record { stopped = s; no_more = omega arith }
  step-Shut shuts_down h = record { stopped = refl; no_more = omega arith }
  step-Shut destroys h = destroy_step-Shut d.destructor

-- Once the pool is stopped, only the calls of `enqueue` that were past their check of the flag can
-- still push their task, each once: every other call is refused.
pub stopped_pool-admitted :
    (n : ℕ) (vs : List Event) (d : ThreadPool)
    → d.stop ≡ true
    → All (InRange n) vs
    → admitted n (run vs d) ≤ admitted n d
unfolding run
stopped_pool-admitted n [] d s h = omega arith
stopped_pool-admitted n (v ∷ vs) d s h =
    let c : Shut n d (step v d) = step-Shut n d s v h.0 in
    omega (arith, c.no_more, stopped_pool-admitted n vs (step v d) c.stopped h.1)
