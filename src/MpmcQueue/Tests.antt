-- ===== src/MpmcQueue/Tests.antt =====
-- mpmc_queue.hpp: runs at concrete inputs.
use tiny_reactor.Base.{
  ℕ, zero, suc, ◌<◌, ◌+◌, ◌≡◌, ◌≤◌, ◌⊎◌, refl, true, false, All, arith, none, some, List, [], ◌∷◌,
  ◌++◌, map, length,
}
use tiny_reactor.MpmcQueue.{
  MpmcQueue, Event, enqueues, dequeues, steps, checks, looks, no_check, reads_data, rests,
  loads_next, make_queue, step, run, none_reused, destroy_queue, enqueued, dequeued,
}
use tiny_reactor.MpmcQueue.Chains.{Chain, replay}
use tiny_reactor.MpmcQueue.Reclaim.{times}
use tiny_reactor.MpmcQueue.Contents.{run-fifo, run-empty, run-tail, run-destroyed}
use tiny_reactor.MpmcQueue.Hazards.{Covers, reading, run-unfreed}
use tiny_reactor.MpmcQueue.Progress.{is_calling}
use tiny_reactor.MpmcQueue.Undeleted.{IsUnchecked, none_reused-IsUnchecked}
use tiny_reactor.MpmcQueue.Alone.{alone}

-- Thread 1 has read `tail`; meanwhile thread 2 enqueues 8 and 9 and thread 3 dequeues 8.
abbrev busy : List Event
busy =
    enqueues 1 7 2
    ∷ (alone 1 1
        ++ enqueues 2 8 3
          ∷ (alone 2 5
              ++ enqueues 2 9 4
                ∷ steps true 2
                ∷ (alone 2 2 ++ steps true 2 ∷ (alone 2 4 ++ dequeues 3 ∷ alone 3 11))))

abbrev worked : MpmcQueue
worked = run busy make_queue

-- The domain checks nothing.
busy-IsUnchecked : All IsUnchecked busy
unfolding alone
busy-IsUnchecked = ground arith

busy-none_reused : none_reused busy make_queue ≡ true
unfolding make_queue
busy-none_reused = none_reused-IsUnchecked busy make_queue busy-IsUnchecked (λ a. refl)

busy-run :
    (worked.history ≡ dequeued 3 8 ∷ enqueued 2 9 ∷ enqueued 2 8 ∷ [])
    × (worked.threads 3 ≡ rests (some 8))
    × (destroy_queue 3 worked ≡ some (3 ∷ 4 ∷ []))
unfolding run make_queue destroy_queue alone
busy-run = (refl, refl, refl)

-- Thread 1 is about to read the `next` of node 1, which is retired; no hazard pointer holds it.
enqueue-unprotected :
    (worked.threads 1 ≡ loads_next 2 1)
    × (worked.retired ≡ 1 ∷ [])
    × (map worked.hp_head (1 ∷ 2 ∷ 3 ∷ []) ≡ 0 ∷ 0 ∷ 0 ∷ [])
    × (map worked.hp_next (1 ∷ 2 ∷ 3 ∷ []) ≡ 0 ∷ 0 ∷ 0 ∷ [])
unfolding run make_queue alone
enqueue-unprotected = (refl, refl, refl, refl)

run-fifo_example :
    (vs : List ℕ) × (replay worked.history ≡ some vs)
    × Chain worked.next worked.value worked.head vs
run-fifo_example = run-fifo busy busy-none_reused

-- Thread 3 finds the queue empty after two calls.
abbrev emptied : List Event
emptied = busy ++ dequeues 3 ∷ (alone 3 19 ++ dequeues 3 ∷ alone 3 4)

run-empty_example : replay (run emptied make_queue).history ≡ some []
unfolding run none_reused step make_queue alone
run-empty_example = run-empty emptied 3 4 4 refl refl refl

run-tail_example :
    ((worked.next worked.tail ≡ 0) ⊎ (worked.next (worked.next worked.tail) ≡ 0))
    × (times worked.head worked.retired ≡ 0)
    × (times worked.tail worked.retired ≡ 0)
run-tail_example = run-tail busy busy-none_reused

run-destroyed_example :
    (vs ns : List ℕ) × (replay worked.history ≡ some vs)
    × (destroy_queue (suc (suc (length vs))) worked ≡ some (worked.head ∷ ns))
    × (map worked.value ns ≡ vs)
    × ((a : ℕ) → times a (worked.head ∷ ns) + times a worked.retired ≤ 1)
run-destroyed_example = run-destroyed busy busy-none_reused

-- Thread 3 retires node 1 in `busy`; then the domain checks it while thread 1 is in `enqueue`.
abbrev freeing : List Event
freeing =
    busy
    ++ checks 4 1 ∷ (looks ∷ looks ∷ looks ∷ looks ∷ looks ∷ looks ∷ looks ∷ looks ∷ looks ∷ [])

-- Thread 1 is about to read the `next` of a node that was deleted.
enqueue-freed :
    let q = run freeing make_queue in (q.threads 1 ≡ loads_next 2 1) × (q.freed 1 ≡ true)
unfolding run make_queue alone
enqueue-freed = (refl, refl)

-- Thread 1 is about to link its node 2 behind node 1, which is the last one; then the others go on, and
-- node 1 is retired and deleted. Thread 3 gets its address for a node with 10, and thread 1 links its
-- node behind that one, which is not in the queue.
abbrev stale : List Event
stale =
    enqueues 1 7 2
    ∷ (alone 1 3
        ++ enqueues 2 8 3
          ∷ (alone 2 5
              ++ dequeues 3
                ∷ (alone 3 11
                    ++ checks 4 1
                      ∷ (looks ∷ looks ∷ looks ∷ looks ∷ looks ∷ looks ∷ looks ∷ looks ∷ looks ∷ [])
                    ++ enqueues 3 10 1 ∷ steps false 1 ∷ steps false 1 ∷ [])))

-- The call of `enqueue` has returned, and its item is lost.
stale-run :
    let q = run stale make_queue in
    (none_reused stale make_queue ≡ false)
    × (q.threads 1 ≡ rests none)
    × (replay q.history ≡ some (7 ∷ []))
    × (destroy_queue 3 q ≡ some (3 ∷ []))
unfolding run none_reused step make_queue alone replay destroy_queue
stale-run = (refl, refl, refl, refl)

-- Thread 2 has taken 9 and is about to read it from node 4; thread 3 enqueues and dequeues 10, which
-- retires node 4, and the domain checks that node.
abbrev guarded : List Event
guarded =
    busy
    ++ steps false 2
      ∷ dequeues 2
      ∷ (alone 2 8
          ++ enqueues 3 10 5
            ∷ (alone 3 5 ++ dequeues 3 ∷ (alone 3 11 ++ checks 4 4 ∷ looks ∷ looks ∷ looks ∷ [])))

guarded-run :
    let q = run guarded make_queue in
    (q.threads 2 ≡ reads_data 3 4) × (q.retired ≡ 4 ∷ 1 ∷ []) × (q.check ≡ no_check)
unfolding run make_queue alone
guarded-run = (refl, refl, refl)

guarded-Covers : All (Covers 4) guarded
unfolding alone
guarded-Covers = ground arith

run-unfreed_example : (run guarded make_queue).freed 4 ≡ false
unfolding run none_reused step make_queue alone reading
run-unfreed_example = run-unfreed 4 guarded guarded-Covers refl 2 (omega arith) 4 refl

-- Threads 0 and 1 take turns in their calls.
abbrev started : List Event
started = enqueues 0 7 2 ∷ dequeues 1 ∷ []

abbrev turns : ℕ → List ℕ
turns zero = []
turns (suc k) = 0 ∷ 1 ∷ turns k

-- A thread below 2 in a call.
abbrev IsCaller : ℕ → Type 0
IsCaller t = (t < 2) × (is_calling ((run started make_queue).threads t) ≡ true)
