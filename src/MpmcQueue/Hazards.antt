-- ===== src/MpmcQueue/Hazards.antt =====
-- mpmc_queue.hpp with the domain of hazard_pointer.hpp: the nodes that `dequeue` reads are not freed.
use tiny_reactor.Base.{
  ℕ, zero, suc, ◌≡◌, ◌≢◌, ◌≤◌, ◌<◌, ◌==◌, refl, subst, Bool, true, false, not, ◌&&◌, ◌||◌, arith,
  inl, inr, Option, none, some, List, [], ◌∷◌, All, any, update, Bool-cases, tally,
}
use tiny_reactor.MpmcQueue.{
  MpmcQueue, Check, no_check, at_next, at_head, start_check, check_slot, Event, enqueues, dequeues,
  steps, checks, looks, Pc, reads_next, reads_data, step, run, make_queue, reuses, none_reused,
}
use tiny_reactor.MpmcQueue.Reclaim.{times}
use tiny_reactor.MpmcQueue.Refinement.{
  Reached, reached, step-Reached, make_queue-Reached, none_reused-cons,
}
use tiny_reactor.MpmcQueue.Guards.{
  passed_head, passed_next, is_checked, Guard, Guard-kept, Guarded, Aside-Guarded,
}
use tiny_reactor.MpmcQueue.Guarding.{
  advance-Aside, enqueue-Aside, dequeue-Aside, advance-Guard, enqueue-Guard, dequeue-Guard,
}

any-times : (a : ℕ) (xs : List ℕ) → any (λ x. x == a) xs ≡ true → times a xs ≢ 0
unfolding tally
any-times a [] h = absurd (ground (arith, h))
any-times a (x ∷ xs) h = ground (arith, any-times a xs)

-- A step of the domain, which leaves the threads and their hazard pointers.
domain-Guarded :
    {n : ℕ} (q : MpmcQueue) (freed : ℕ → Bool) (c check : Check)
    → q.check ≡ c
    → ((t a : ℕ)
        → t < n
        → q.hp_head t ≡ a
        → (q.freed a || passed_head c t a) ≡ false
        → (freed a || passed_head check t a) ≡ false)
    → ((t a : ℕ)
        → t < n
        → q.hp_next t ≡ a
        → (q.freed a || passed_next c t a) ≡ false
        → (freed a || passed_next check t a) ≡ false)
    → ((a : ℕ)
        → ((q.freed a || is_checked c a) ≡ true → times a q.retired ≢ 0)
        → (freed a || is_checked check a) ≡ true
        → times a q.retired ≢ 0)
    → Guarded n q
    → Guarded n (record q { freed = freed; check = check })
domain-Guarded q freed c check e f g r s = record {
  guards = λ t lt.
      Guard-kept q (record q { freed = freed; check = check }) t (q.threads t) refl refl
        (λ a h l. f t a lt h (subst (λ x. (q.freed a || passed_head x t a) ≡ false) e l))
        (λ a h l. g t a lt h (subst (λ x. (q.freed a || passed_next x t a) ≡ false) e l))
        (s.guards t lt);
  retired_first = λ a. r a (
      subst (λ x. (q.freed a || is_checked x a) ≡ true → times a q.retired ≢ 0) e
        (s.retired_first a));
}

start_check-Guarded :
    {n : ℕ} (m a : ℕ) (c : Check) (q : MpmcQueue)
    → n ≤ m
    → q.check ≡ c
    → Guarded n q
    → Guarded n (start_check m a c q)
unfolding start_check passed_head passed_next is_checked
start_check-Guarded m a no_check q le e s =
    elim (Bool-cases (any (λ x. x == a) q.retired && not (q.freed a))) [
      | inl found ↦ rw found (
          domain-Guarded q q.freed no_check (at_next a m) e (λ t b lt h l. ground arith)
            (λ t b lt h l. ground arith) (λ b k l. ground (arith, any-times b q.retired)) s)
      | inr other ↦ rw other s
    ]
start_check-Guarded m a c q le e s = s

check_slot-Guarded :
    {n : ℕ} (c : Check) (q : MpmcQueue) → q.check ≡ c → Guarded n q → Guarded n (check_slot c q)
unfolding check_slot passed_head passed_next is_checked
check_slot-Guarded no_check q e s = s
check_slot-Guarded (at_next a zero) q e s =
    domain-Guarded q (update q.freed a true) (at_next a zero) no_check e
      (λ t b lt h l. ground arith) (λ t b lt h l. ground arith) (λ b k l. ground (arith, k)) s
check_slot-Guarded (at_next a (suc k)) q e s =
    domain-Guarded q q.freed (at_next a (suc k)) _ e (λ t b lt h l. ground arith)
      (λ t b lt h l. ground arith) (λ b k l. ground (arith, k)) s
check_slot-Guarded (at_head a k) q e s =
    domain-Guarded q q.freed (at_head a k) _ e (λ t b lt h l. ground arith)
      (λ t b lt h l. ground arith) (λ b k l. ground (arith, k)) s

-- The domain reads the hazard pointers of the first `n` threads.
abbrev pub Covers : ℕ → Event → Type 0
Covers n (checks m a) = n ≤ m
Covers n _ = Unit

step-Guarded :
    {n : ℕ} (e : Event) (q : MpmcQueue)
    → Reached q
    → reuses e q ≡ false
    → Covers n e
    → Guarded n q
    → Guarded n (step e q)
unfolding step reuses
step-Guarded (enqueues t v a) q h f c g =
    Aside-Guarded t q _ g (enqueue-Aside t v a (q.threads t) q f)
      (λ lt. enqueue-Guard t v a (q.threads t) q (g.guards t lt) refl)
step-Guarded (dequeues t) q h f c g =
    Aside-Guarded t q _ g (dequeue-Aside t (q.threads t) q)
      (λ lt. dequeue-Guard t (q.threads t) q (g.guards t lt) refl)
step-Guarded (steps fails t) q (reached w s v) f c g =
    Aside-Guarded t q _ g (advance-Aside fails t (q.threads t) q) (λ lt.
      advance-Guard q w.ranked s g.retired_first fails t (q.threads t) (w.tied t) (g.guards t lt)
        refl)
step-Guarded (checks m a) q h f c g = start_check-Guarded m a q.check q c refl g
step-Guarded looks q h f c g = check_slot-Guarded q.check q refl g

run-Guarded :
    {n : ℕ} (es : List Event) (q : MpmcQueue)
    → All (Covers n) es
    → none_reused es q ≡ true
    → Reached q
    → Guarded n q
    → Guarded n (run es q)
unfolding run
run-Guarded [] q c f h g = g
run-Guarded (e ∷ es) q (c, cs) f h g =
    let (first, rest) = none_reused-cons e es q f in
    run-Guarded es (step e q) cs rest (step-Reached e q first h) (step-Guarded e q h first c g)

make_queue-Guarded : (n : ℕ) → Guarded n make_queue
unfolding make_queue Guard is_checked
make_queue-Guarded n = record {
  guards = λ t lt. tt;
  retired_first = λ a gone. absurd (ground (arith, gone));
}

-- The node that a `dequeue` reads in its next step.
unfoldable pub reading : Pc → Option ℕ
reading (reads_next ch ct) = some ch
reading (reads_data ch nx) = some nx
reading _ = none

Guard-reading :
    (q : MpmcQueue) (t : ℕ) (pc : Pc) (a : ℕ)
    → Guard q t pc
    → reading pc ≡ some a
    → q.freed a ≡ false
unfolding Guard reading
Guard-reading q t (reads_next ch ct) a g e = ground (arith, g, e)
Guard-reading q t (reads_data ch nx) a g e = ground (arith, g, e)
Guard-reading q t pc a g e = absurd (ground (arith, e))

-- However the steps of the threads and of the domain interleave: the node that a `dequeue` is about
-- to read was not found unprotected, if every check of the domain reads the slots of the first `n`
-- threads and the reader is one of them, and no `new` gives the address of a node that was deleted.
pub run-unfreed :
    (n : ℕ) (es : List Event)
    → All (Covers n) es
    → none_reused es make_queue ≡ true
    → (t : ℕ) → t < n
    → (a : ℕ) → let q = run es make_queue in reading (q.threads t) ≡ some a → q.freed a ≡ false
run-unfreed n es c f t lt a e =
    Guard-reading (run es make_queue) t ((run es make_queue).threads t) a
      ((run-Guarded es make_queue c f make_queue-Reached (make_queue-Guarded n)).guards t lt) e
