-- ===== src/MpmcQueue/Contents.antt =====
-- mpmc_queue.hpp: what the queue holds and returns, in any interleaving of `enqueue` and `dequeue`,
-- and what is deleted at its end.
use tiny_reactor.Base.{
  ℕ, suc, ◌+◌, ◌≡◌, ◌≢◌, ◌≤◌, ◌<◌, ◌==◌, refl, subst, ap, arith, ◌⊎◌, inl, inr, some, true, List,
  [], ◌∷◌, map, length, tally, ℕ_discrete, false, Bool-cases,
}
use tiny_reactor.MpmcQueue.{
  MpmcQueue, Event, make_queue, run, none_reused, rests, reads_next, delete_from, destroy_queue,
}
use tiny_reactor.MpmcQueue.Chains.{View, Chain, replay}
use tiny_reactor.MpmcQueue.Invariant.{Ranked, Tied, last_taken, last_node, last_head}
use tiny_reactor.MpmcQueue.Reclaim.{times}
use tiny_reactor.MpmcQueue.Refinement.{reached, run-Reached, make_queue-Reached}

-- One round of the destructor's loop.
delete_round :
    (fuel : ℕ) (next : ℕ → ℕ) (a : ℕ) (ns : List ℕ)
    → (a == 0) ≡ false
    → delete_from fuel next (next a) ≡ some ns
    → delete_from (suc fuel) next a ≡ some (a ∷ ns)
unfolding delete_from
delete_round fuel next a ns real rest = rw (real, rest) refl

-- A node in front of nodes that come later.
later_nodes :
    (rank : ℕ → ℕ) (a next b : ℕ) (ms : List ℕ)
    → rank a < next
    → (times b ms ≢ 0 → next ≤ rank b)
    → times b ms ≤ 1
    → (times b (a ∷ ms) ≢ 0 → rank a ≤ rank b) × (times b (a ∷ ms) ≤ 1)
unfolding tally
later_nodes rank a next b ms up after once = elim (Bool-cases (a == b)) [
  | inl same ↦
      let here : a ≡ b = ground arith in rw here (λ _. omega arith, ground (arith, ap rank here))
  | inr other ↦ rw other (λ h. ground arith, omega arith)
]

-- The loop of the destructor on a chain: the nodes that it deletes after the first one carry the data
-- of the chain, come later in the order, and are different.
Chain-deleted :
    {rank : ℕ → ℕ} {len : ℕ} (q : MpmcQueue)
    → Ranked rank len q
    → (a : ℕ) (vs : List ℕ) → rank a ≢ 0
    → Chain q.next q.value a vs
    → (ns : List ℕ) × (delete_from (suc (suc (length vs))) q.next a ≡ some (a ∷ ns))
      × (map q.value ns ≡ vs)
      × ((b : ℕ) → times b (a ∷ ns) ≢ 0 → rank a ≤ rank b)
      × ((b : ℕ) → times b (a ∷ ns) ≤ 1)
unfolding delete_from Chain tally
Chain-deleted q r a [] here null =
    let real : (a == 0) ≡ false = ground (arith, r.known a) in
    ([], rw (real, null) refl, refl, λ b h. ground arith, λ b. ground arith)
Chain-deleted {rank} q r a (v ∷ vs) here (more, carried, c) =
    let real : (a == 0) ≡ false = ground (arith, r.known a) in
    let up : rank a < rank (q.next a) = ground (arith, r.ordered a) in
    let (ns, deletes, rest, after, once) =
      Chain-deleted q r (q.next a) vs (ground (arith, r.ordered a)) c in
    (
      q.next a ∷ ns,
      delete_round (suc (suc (length vs))) q.next a _ real deletes,
      rw (carried, rest) refl,
      λ b. (later_nodes rank a _ b (q.next a ∷ ns) up (after b) (once b)).0,
      λ b. (later_nodes rank a _ b (q.next a ∷ ns) up (after b) (once b)).1,
    )

-- A `head` without a next node is an empty queue.
View-empty : (q : MpmcQueue) → View q → q.next q.head ≡ 0 → replay q.history ≡ some []
unfolding View Chain
View-empty q ([], e, _) h = e
View-empty q (v ∷ vs, e, c) h = absurd (c.0 h)

-- As long as no `new` gives the address of a node that was deleted, a deleted node keeping its content
-- until then: whatever the threads and the domain do, in whatever order their steps come and whichever
-- exchanges fail without a reason, what took effect so far can be replayed on a list to which items are added at the end and
-- from which the first is taken. The list that is left is the data of the nodes that follow `head`,
-- in order.
pub run-fifo :
    (es : List Event)
    → none_reused es make_queue ≡ true
    → let q = run es make_queue in
      (vs : List ℕ) × (replay q.history ≡ some vs) × Chain q.next q.value q.head vs
unfolding View
run-fifo es fresh = elim (run-Reached es make_queue fresh make_queue-Reached) [ reached w s v ↦ v ]

-- What a call of `dequeue` that returned true wrote to `result` is what the history records as the
-- last item that its thread took.
pub run-dequeued :
    (es : List Event) (t v : ℕ)
    → none_reused es make_queue ≡ true
    → let q = run es make_queue in q.threads t ≡ rests (some v) → last_taken t q.history ≡ some v
unfolding Tied
run-dequeued es t v fresh h = elim (run-Reached es make_queue fresh make_queue-Reached) [
  | reached {rank} w s _ ↦ subst (Tied rank (run es make_queue) t) h (w.tied t)
]

-- If no `new` gave the address of a deleted node, whose content stays until then, and a thread in
-- `dequeue` reads the null `next` for which the call returns false, the history leaves the queue empty.
pub run-empty :
    (es : List Event) (t ch ct : ℕ)
    → none_reused es make_queue ≡ true
    → let q = run es make_queue in
      q.threads t ≡ reads_next ch ct → q.next ch ≡ 0 → replay q.history ≡ some []
unfolding Tied
run-empty es t ch ct fresh h null = elim (run-Reached es make_queue fresh make_queue-Reached) [
  | reached {rank} w s v ↦
      let q : MpmcQueue = run es make_queue in
      let k : Tied rank q t (reads_next ch ct) = subst (Tied rank q t) h (w.tied t) in
      View-empty q v (last_head q w.ranked ch k.0.0 k.0.1 null)
]

-- While no `new` gives the address of a deleted node, `tail` is the last node or the one before it, and neither `head` nor `tail` was retired.
pub run-tail :
    (es : List Event)
    → none_reused es make_queue ≡ true
    → let q = run es make_queue in
      ((q.next q.tail ≡ 0) ⊎ (q.next (q.next q.tail) ≡ 0))
      × (times q.head q.retired ≡ 0)
      × (times q.tail q.retired ≡ 0)
run-tail es fresh = elim (run-Reached es make_queue fresh make_queue-Reached) [
  | reached {rank} {len} w s v ↦
      let q : MpmcQueue = run es make_queue in
      let last = last_node q w.ranked (q.next q.tail) refl in
      (
        elim (ℕ_discrete (q.next q.tail) 0) [ yes null ↦ inl null | no more ↦ inr (last more) ],
        ground (arith, s.passed q.head, w.ranked.places),
        ground (arith, s.passed q.tail, w.ranked.places),
      )
]

-- After a run in which no `new` gave the address of a deleted node, whose content stays until then, the
-- destructor's loop ends: with two steps more than there are items in the queue it deletes `head`
-- and the nodes after it, which carry these items in order. No node is deleted twice, and none that
-- was retired is deleted.
pub run-destroyed :
    (es : List Event)
    → none_reused es make_queue ≡ true
    → let q = run es make_queue in
      (vs ns : List ℕ) × (replay q.history ≡ some vs)
      × (destroy_queue (suc (suc (length vs))) q ≡ some (q.head ∷ ns))
      × (map q.value ns ≡ vs)
      × ((a : ℕ) → times a (q.head ∷ ns) + times a q.retired ≤ 1)
unfolding View destroy_queue tally
run-destroyed es fresh = elim (run-Reached es make_queue fresh make_queue-Reached) [
  | reached {rank} w s (vs, e, c) ↦
      let q : MpmcQueue = run es make_queue in
      let (ns, deletes, carried, after, once) =
        Chain-deleted q w.ranked q.head vs w.ranked.places.0 c in
      (vs, ns, e, deletes, carried, λ a. ground (arith, s.passed a, s.once a, after a, once a))
]
