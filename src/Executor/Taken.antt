-- ===== src/Executor/Taken.antt =====
-- task_executor.cpp: a task that is taken off one of the executor's lists, and what is done with it.
use tiny_reactor.Base.{
  tally, tally-append, ℕ, ◌+◌, ◌≡◌, refl, ap, Bool, some, List, [], ◌∷◌, ◌==◌, if◌then◌else◌, arith,
}
use tiny_reactor.Executor.{
  TaskExecutor, Timer, TimerKind, exec_timer, retry_timer, give_back, update_task_state, take_task,
  execute_task, begin_next, on_timer, take_running, take_expired, expire,
}
use tiny_reactor.Executor.Counts.{
  is_retry, waits_for, retries_as, tally-take_task, length-take_task, retrying_as,
  tally-take_running, tally-take_expired, tally-expire,
}
use tiny_reactor.Executor.Kept.{nobody, only, begin_task-Inv, Inv}

-- A task that a pool thread takes off the queue.
popped-Inv :
    (k : ℕ) (ks : List ℕ) (e : TaskExecutor)
    → e.queue ≡ k ∷ ks
    → Inv nobody e
    → Inv (only k) (record e { queue = ks })
unfolding tally
popped-Inv k ks e q inv = record {
  once = λ j. ground (arith, once j, ap (tally (λ x. x == j)) q);
  budget = budget;
  small = small;
  counted = counted;
  limit = limit;
  apart = apart;
  fresh = fresh;
}
  where
    open inv use {once, budget, small, counted, limit, apart, fresh}

pub begin_next-Inv :
    (le : ℕ → ℕ → Bool) (ks : List ℕ) (e : TaskExecutor)
    → e.queue ≡ ks
    → Inv nobody e
    → Inv nobody (begin_next le ks e)
unfolding begin_next
begin_next-Inv le [] e q inv = inv
begin_next-Inv le (k ∷ ks) e q inv = begin_task-Inv k (popped-Inv k ks e q inv) le

-- A task whose function has ended; its timer is not one that a retry waits for.
pub take_running-Inv :
    (k i : ℕ) (rest : List (ℕ × ℕ)) (e : TaskExecutor)
    → take_running k e.running ≡ some (i, rest)
    → Inv nobody e
    → Inv (only k) (record e { running = rest }) × (retrying_as i e ≡ 0)
take_running-Inv k i rest e h inv = (
  record {
    once = λ j. ground (arith, once j, tally-take_running (λ r. r.0 == j) k i e.running rest h);
    budget = budget;
    small = small;
    counted = counted;
    limit = limit;
    apart = λ j. ground (arith, apart j, tally-take_running (λ r. r.1 == j) k i e.running rest h);
    fresh = λ j f. ground (arith, fresh j, tally-take_running (λ r. r.1 == j) k i e.running rest h);
  },
  ground (arith, apart i, tally-take_running (λ r. r.1 == i) k i e.running rest h),
)
  where
    open inv use {once, budget, small, counted, limit, apart, fresh}

module _ (i : ℕ) (t : Timer) (rest : List Timer) (e : TaskExecutor)
    (taken : take_expired i e.timers ≡ some (t, rest)) (inv : Inv nobody e) where
  open inv use {once, budget, small, counted, limit, apart, fresh}

  counts : (p : Timer → Bool) → tally p e.timers ≡ tally p rest + (if p t then 1 else 0)
  counts p = tally-take_expired p i e.timers rest t taken

  on_exec_timer-Inv :
      t.kind ≡ exec_timer → Inv nobody (on_timer t exec_timer (record e { timers = rest }))
  unfolding on_timer
  on_exec_timer-Inv kind = record {
    once = λ j. ground (arith, once j, counts (waits_for j));
    budget = λ j. ground (arith, budget j, counts (waits_for j));
    small = λ j. ground (arith, small j);
    counted = ground (arith, counted, counts (λ x. is_retry x.kind));
    limit = ground (arith, limit, counts (λ x. is_retry x.kind));
    apart = λ j. ground (arith, apart j, counts (retries_as j));
    fresh = λ j h. ground (arith, fresh j, counts (retries_as j));
  }

  on_retry_timer-Inv :
      t.kind ≡ retry_timer → Inv nobody (on_timer t retry_timer (record e { timers = rest }))
  unfolding on_timer tally
  on_retry_timer-Inv kind = record {
    once = λ j. ground (arith, once j, counts (waits_for j));
    budget = λ j. ground (arith, budget j, small j, counts (waits_for j));
    small = λ j. ground (arith, small j);
    counted = ground (arith, counted, counts (λ x. is_retry x.kind));
    limit = ground (arith, limit, counts (λ x. is_retry x.kind));
    apart = λ j. ground (arith, apart j, counts (retries_as j));
    fresh = λ j h. ground (arith, fresh j, counts (retries_as j));
  }

  pub on_timer-Inv :
      (kind : TimerKind) → t.kind ≡ kind → Inv nobody (on_timer t kind (record e { timers = rest }))
  on_timer-Inv exec_timer q = on_exec_timer-Inv q
  on_timer-Inv retry_timer q = on_retry_timer-Inv q

pub expire-Inv :
    (i : ℕ) (e : TaskExecutor) → Inv nobody e → Inv nobody (record e { timers = expire i e.timers })
expire-Inv i e inv = record {
  once = λ k. rw (tally-expire (waits_for k) i e.timers (λ t. refl)) (once k);
  budget = λ k. rw (tally-expire (waits_for k) i e.timers (λ t. refl)) (budget k);
  small = small;
  counted = rw (tally-expire (λ t. is_retry t.kind) i e.timers (λ t. refl)) counted;
  limit = rw (tally-expire (λ t. is_retry t.kind) i e.timers (λ t. refl)) limit;
  apart = λ j. rw (tally-expire (retries_as j) i e.timers (λ t. refl)) (apart j);
  fresh = λ j h. rw (tally-expire (retries_as j) i e.timers (λ t. refl)) (fresh j h);
}
  where
    open inv use {once, budget, small, counted, limit, apart, fresh}

pub execute_task-Inv : (k : ℕ) (e : TaskExecutor) → Inv (only k) e → Inv nobody (execute_task k e)
unfolding execute_task tally
execute_task-Inv k e inv = record {
  once = λ j. ground (arith, inv.once j, tally-append (λ q. q == j) e.queue (k ∷ []));
  budget = inv.budget;
  small = inv.small;
  counted = inv.counted;
  limit = inv.limit;
  apart = inv.apart;
  fresh = inv.fresh;
}

-- A task that is taken off the count, and one that its retry handler submits again.
pub give_back-Inv :
    (k : ℕ) (rest : List ℕ) (e : TaskExecutor)
    → take_task k e.refused ≡ some rest
    → Inv nobody e
    → Inv nobody (give_back k (record e { refused = rest }))
unfolding give_back update_task_state
give_back-Inv k rest e h inv = record {
  once = λ j. ground (arith, inv.once j, tally-take_task (λ q. q == j) k e.refused rest h);
  budget = λ j. ground (arith, inv.budget j);
  small = λ j. ground (arith, inv.small j);
  counted = ground (arith, inv.counted, length-take_task k e.refused rest h);
  limit = inv.limit;
  apart = inv.apart;
  fresh = inv.fresh;
}

pub resubmitting-Inv :
    (k : ℕ) (rest : List ℕ) (e : TaskExecutor)
    → take_task k e.resubmitting ≡ some rest
    → Inv nobody e
    → Inv (only k) (record e { resubmitting = rest })
resubmitting-Inv k rest e h inv = record {
  once = λ j. ground (arith, inv.once j, tally-take_task (λ q. q == j) k e.resubmitting rest h);
  budget = inv.budget;
  small = inv.small;
  counted = inv.counted;
  limit = inv.limit;
  apart = inv.apart;
  fresh = inv.fresh;
}
