-- ===== src/ThreadPool/Returning.antt =====
-- thread_pool.cpp: the destructor returns.
use tiny_reactor.Base.{
  ℕ, zero, suc, ◌+◌, ◌*◌, ◌≡◌, ◌≤◌, ◌<◌, refl, ap, sym, subst, ◌∙◌, List, [], ◌∷◌, total, tally,
  arith, All, All-map, length,
}
use tiny_reactor.ThreadPool.{
  ThreadPool, Event, destroys, Destructor, not_called, frees, drains, discounts, joins, returned,
  drain, destroy_step, step, run, make_pool,
}
use tiny_reactor.ThreadPool.Measures.{InRange}
use tiny_reactor.ThreadPool.Refusing.{is_pushing}
use tiny_reactor.ThreadPool.Stopping.{is_step_of}
use tiny_reactor.ThreadPool.Accounting.{Accounts, run-Accounts, make_pool-Accounts}
use tiny_reactor.ThreadPool.Unstarted.{Unstarted, run-Unstarted, make_pool-Unstarted}
use tiny_reactor.ThreadPool.Destroying.{IsDestroying, IsDestroying-InRange, Closing, run-Closing}
use tiny_reactor.ThreadPool.Joining.{IsJoined, workers-join}
use tiny_reactor.ThreadPool.Destroyed.{Settled, settled, begun-Closing}

-- The destructor makes `r` steps.
unfoldable pub goes_on : ℕ → List Event
goes_on zero = []
goes_on (suc r) = destroys ∷ goes_on r

-- It returns in at most `bound` steps of its own.
pub record Returns (bound : ℕ) (d : ThreadPool) : Type 0 where
  pub rounds : ℕ
  pub soon : rounds ≤ bound
  pub over : (run (goes_on rounds) d).destructor ≡ returned

-- One step more.
turn :
    {bound : ℕ} {w : Destructor} (d : ThreadPool)
    → d.destructor ≡ w
    → Returns bound (destroy_step w d)
    → Returns (suc bound) d
unfolding run goes_on step
turn {w} d at r = record {
  rounds = suc r.rounds;
  soon = omega (arith, r.soon);
  over = ap (λ x. (run (goes_on r.rounds) (destroy_step x d)).destructor) at ∙ r.over;
}

later : {bound more : ℕ} (d : ThreadPool) → Returns bound d → bound ≤ more → Returns more d
later d r le = record { rounds = r.rounds; soon = omega (arith, r.soon, le); over = r.over }

from_joins : (d : ThreadPool) → d.destructor ≡ joins → IsJoined d → Returns 1 d
unfolding destroy_step IsJoined run goes_on
from_joins d at over = turn d at (rw over (record { rounds = 0; soon = omega arith; over = refl }))

from_drains :
    (ks : List ℕ) (d : ThreadPool)
    → d.queue ≡ ks
    → d.destructor ≡ drains
    → IsJoined d
    → Returns (2 * length ks + 2) d
unfolding destroy_step IsJoined drain
from_drains [] d q at over =
    turn d at (subst (λ ks. Returns 1 (drain ks d)) (sym q) (from_joins _ refl over))
from_drains (k ∷ ks) d q at over =
    later d
      (turn d at (
        subst (λ js. Returns (suc (2 * length ks + 2)) (drain js d)) (sym q)
          (turn _ refl (from_drains ks _ refl refl over))))
      (omega arith)

from_frees :
    (d : ThreadPool) → d.destructor ≡ frees → IsJoined d → Returns (2 * length d.queue + 3) d
unfolding destroy_step IsJoined
from_frees d at over = later d (turn d at (from_drains d.queue _ refl refl over)) (omega arith)

from_any :
    (d : ThreadPool) (w : Destructor)
    → d.destructor ≡ w
    → IsJoined d
    → Returns (2 * length d.queue + 4) d
unfolding destroy_step IsJoined run goes_on
from_any d not_called at over = later d (turn d at (from_frees _ refl over)) (omega arith)
from_any d frees at over = later d (from_frees d at over) (omega arith)
from_any d drains at over = later d (from_drains d.queue d refl at over) (omega arith)
from_any d discounts at over =
    later d (turn d at (from_drains d.queue _ refl refl over)) (omega arith)
from_any d joins at over = later d (from_joins d at over) (omega arith)
from_any d returned at over = record { rounds = 0; soon = omega arith; over = at }

goes_on-IsDestroying : (n r : ℕ) → All (IsDestroying n) (goes_on r)
unfolding goes_on
goes_on-IsDestroying n zero = tt
goes_on-IsDestroying n (suc r) = (tt, goes_on-IsDestroying n r)

InRanges : (n : ℕ) (vs : List Event) → All (IsDestroying n) vs → All (InRange n) vs
InRanges n vs h = All-map (IsDestroying n) (InRange n) vs (IsDestroying-InRange n) h

-- The invariants of a pool whose destructor runs.
record Going (n : ℕ) (d : ThreadPool) : Type 0 where
  closing : Closing n d
  accounts : Accounts n d
  unstarted : Unstarted d

run-Going :
    (n : ℕ) (vs : List Event) (d : ThreadPool)
    → All (IsDestroying n) vs
    → Going n d
    → Going n (run vs d)
run-Going n vs d h g = record {
  closing = run-Closing n vs d h g.closing;
  accounts = run-Accounts n vs d (InRanges n vs h) g.accounts;
  unstarted = run-Unstarted vs d g.unstarted;
}

begun-Going :
    (n m : ℕ) (vs : List Event)
    → All (InRange n) vs
    → (run vs (make_pool m)).destructor ≡ not_called
    → total is_pushing n (run vs (make_pool m)).clients ≡ 0
    → Going n (step destroys (run vs (make_pool m)))
unfolding run
begun-Going n m vs before at quiet =
    let d : ThreadPool = run vs (make_pool m) in
    record {
      closing = begun-Closing n d at quiet;
      accounts =
          run-Accounts n (destroys ∷ []) d (tt, tt)
            (run-Accounts n vs (make_pool m) before (make_pool-Accounts n m));
      unstarted =
          run-Unstarted (destroys ∷ []) d (run-Unstarted vs (make_pool m) (make_pool-Unstarted m));
    }

-- The destructor of a pool is called after any interleaving of workers and clients numbered below `n`,
-- while no client is about to push a task, and nobody begins a call from then on. When each worker has
-- made twelve steps, whatever else was done in between, the destructor returns in at most `2 * q + 4`
-- steps, `q` being the length of the queue at that time. Then the queue is empty, every thread has left, a task has
-- run or been thrown away by the destructor as often as it was pushed, and `get_tasks_left` and the
-- tasks that clients have still to count make up 0, as a 64-bit number.
pub destroyed_pool-returns :
    (n m k : ℕ) (vs us : List Event)
    → All (InRange n) vs
    → All (IsDestroying n) us
    → (run vs (make_pool m)).destructor ≡ not_called
    → total is_pushing n (run vs (make_pool m)).clients ≡ 0
    → ((i : ℕ) → i < (step destroys (run vs (make_pool m))).threads → 12 ≤ tally (is_step_of i) us)
    → let d = run us (step destroys (run vs (make_pool m))) in
      (r : ℕ) × (r ≤ 2 * length d.queue + 4)
      × ((run (goes_on r) d).destructor ≡ returned)
      × Settled n k (run (goes_on r) d)
destroyed_pool-returns n m k vs us before during at quiet enough =
    let b : ThreadPool = step destroys (run vs (make_pool m)) in
    let start : Going n b = begun-Going n m vs before at quiet in
    let d : ThreadPool = run us b in
    let r : Returns (2 * length d.queue + 4) d =
      from_any d d.destructor refl (workers-join n us b start.closing.stopped during enough) in
    let g : Going n (run (goes_on r.rounds) d) =
      run-Going n (goes_on r.rounds) d (goes_on-IsDestroying n r.rounds)
        (run-Going n us b during start) in
    (
      r.rounds,
      r.soon,
      r.over,
      settled n k (run (goes_on r.rounds) d) g.closing g.accounts g.unstarted r.over,
    )
