-- ===== src/MpmcQueue/Progress.antt =====
-- mpmc_queue.hpp: the loops of `enqueue` and `dequeue` in threads that run at the same time.
use tiny_reactor.Base.{
  ℕ, suc, ◌+◌, ◌*◌, ◌≡◌, ◌≢◌, ◌==◌, if◌then◌else◌, Bool, true, false, ◌⊎◌, List, total, length, map,
}
use tiny_reactor.MpmcQueue.{MpmcQueue, Pc, Event, steps, rests}
use tiny_reactor.MpmcQueue.Alone.{remaining}

-- What a step does to what the others read: an operation takes effect, nothing changes, or `tail`
-- catches up.
abbrev Changes : (q e : MpmcQueue) → Type 0
Changes q e =
    (length e.history ≡ suc (length q.history))
    ⊎ ((e.history ≡ q.history)
        × (e.head ≡ q.head)
        × (e.next ≡ q.next)
        × ((e.tail ≡ q.tail) ⊎ ((q.next q.tail ≢ 0) × (e.next e.tail ≡ 0))))

-- The steps that are left to all calls, where each call may start over once when `tail` catches up.
abbrev work : ℕ → MpmcQueue → ℕ
work n q = (if q.next q.tail == 0 then 0 else n * 24) + total (remaining q) n q.threads

-- The steps of the threads in a list, one after the other, whose exchanges do not fail without a
-- reason.
abbrev pub in_turn : List ℕ → List Event
in_turn = map (steps false)

unfoldable pub is_calling : Pc → Bool
is_calling (rests o) = false
is_calling _ = true
