-- ===== src/ThreadPool/Moves.antt =====
-- thread_pool.cpp: what one step of a client changes, in one place.
use tiny_reactor.Base.{
  ℕ, ◌+◌, ◌≡◌, ◌<◌, ◌%◌, ◌^◌, refl, Bool, true, false, [], ◌∷◌, ◌==◌, if◌then◌else◌, total, tally,
  tally-append, arith, length, length-append,
}
use tiny_reactor.ThreadPool.{
  ThreadPool, Client, idle, refused, checks, pushes, rechecks, counts, releases, loads, stores,
  answer, client_step, begin_call,
}
use tiny_reactor.ThreadPool.Measures.{is_uncounted, count, moved}

-- The client `c` moves from `old` to `next` while the pool goes from `d` to `e`.
pub record Asked (n c : ℕ) (old : Client) (d e : ThreadPool) : Type 0 where
  pub next : Client
  pub place :
      total is_uncounted n e.clients + is_uncounted old
      ≡ total is_uncounted n d.clients + is_uncounted next
  pub left :
      (e.leftover + length d.queue + is_uncounted next) % 2 ^ 64
      ≡ (d.leftover + length e.queue + is_uncounted old) % 2 ^ 64
  pub tasks : (k : ℕ) → count k e.queue + count k d.accepted ≡ count k d.queue + count k e.accepted
  pub workers : e.workers ≡ d.workers
  pub stop : e.stop ≡ d.stop
  pub active : e.active_threads ≡ d.active_threads
  pub finished : e.finished ≡ d.finished
  pub discarded : e.discarded ≡ d.discarded
  pub destructor : e.destructor ≡ d.destructor

module _ {n c : ℕ} (d : ThreadPool) where
  unchanged : (w : Client) → Asked n c w d d
  unchanged w = record {
    next = w;
    place = refl;
    left = refl;
    tasks = λ k. omega arith;
    workers = refl;
    stop = refl;
    active = refl;
    finished = refl;
    discarded = refl;
    destructor = refl;
  }

module _ {n c : ℕ} (d : ThreadPool) (h : c < n) where
  -- A client moves and changes nothing that is counted.
  only_client :
      {old : Client} (next : Client) (target sem : ℕ)
      → d.clients c ≡ old
      → is_uncounted old ≡ is_uncounted next
      → Asked n c old d (answer c next (record d { target_thread_count = target; task_sem = sem }))
  only_client next target sem e u = record {
    next = next;
    place = moved is_uncounted n d.clients c next h e;
    left = omega (arith, u);
    tasks = λ k. omega arith;
    workers = refl;
    stop = refl;
    active = refl;
    finished = refl;
    discarded = refl;
    destructor = refl;
  }

  client_either :
      {old : Client} (b : Bool) (p q : Client)
      → d.clients c ≡ old
      → is_uncounted old ≡ is_uncounted p
      → is_uncounted old ≡ is_uncounted q
      → Asked n c old d (answer c (if b then p else q) d)
  client_either true p q e u v = only_client p d.target_thread_count d.task_sem e u
  client_either false p q e u v = only_client q d.target_thread_count d.task_sem e v

  pub client_step-Asked :
      (pushed : Bool) (w : Client) → d.clients c ≡ w → Asked n c w d (client_step pushed c w d)
  unfolding client_step is_uncounted tally
  client_step-Asked pushed (checks k) e = client_either d.stop refused (pushes k) e refl refl
  client_step-Asked true (pushes k) e = record {
    next = counts;
    place = moved is_uncounted n d.clients c counts h e;
    left = omega (arith, length-append d.queue (k ∷ []));
    tasks = λ j. omega (arith, tally-append (λ x. x == j) d.queue (k ∷ []));
    workers = refl;
    stop = refl;
    active = refl;
    finished = refl;
    discarded = refl;
    destructor = refl;
  }
  client_step-Asked false (pushes k) e = only_client (rechecks k) _ _ e refl
  client_step-Asked pushed (rechecks k) e = client_either d.stop refused (pushes k) e refl refl
  client_step-Asked pushed counts e = record {
    next = releases;
    place = moved is_uncounted n d.clients c releases h e;
    left = omega arith;
    tasks = λ k. omega arith;
    workers = refl;
    stop = refl;
    active = refl;
    finished = refl;
    discarded = refl;
    destructor = refl;
  }
  client_step-Asked pushed releases e = only_client idle _ _ e refl
  client_step-Asked pushed (loads m) e = only_client _ _ _ e refl
  client_step-Asked pushed (stores m) e = only_client idle _ _ e refl
  client_step-Asked pushed idle e = unchanged d idle
  client_step-Asked pushed refused e = unchanged d refused

  -- A client in no call begins one.
  pub begin_call-Asked :
      (call w : Client)
      → is_uncounted call ≡ 0
      → d.clients c ≡ w
      → Asked n c w d (begin_call c call w d)
  unfolding begin_call is_uncounted
  begin_call-Asked call idle u e = only_client call _ _ e (omega (arith, u))
  begin_call-Asked call refused u e = only_client call _ _ e (omega (arith, u))
  begin_call-Asked call (checks k) u e = unchanged d (checks k)
  begin_call-Asked call (pushes k) u e = unchanged d (pushes k)
  begin_call-Asked call (rechecks k) u e = unchanged d (rechecks k)
  begin_call-Asked call counts u e = unchanged d counts
  begin_call-Asked call releases u e = unchanged d releases
  begin_call-Asked call (loads m) u e = unchanged d (loads m)
  begin_call-Asked call (stores m) u e = unchanged d (stores m)
