-- ===== src/MpmcQueue/Alone.antt =====
-- mpmc_queue.hpp: the loops of `enqueue` and `dequeue` in a thread that runs alone.
use tiny_reactor.Base.{
  ℕ, zero, suc, ◌+◌, ◌≡◌, ◌≢◌, ◌≤◌, ◌==◌, if◌then◌else◌, refl, false, arith, ◌⊎◌, inl, inr, Option,
  List, [], ◌∷◌, Bool-cases, ==_self,
}
use tiny_reactor.MpmcQueue.{
  MpmcQueue, Pc, Event, steps, rests, loads_tail, loads_next, links, swings, rechecks_tail, helps,
  loads_head, returns_false, protects_head, rechecks_head, reads_tail, reads_next, protects_next,
  rechecks_next, swings_for, pops, reads_data, releases_holders, retires, advance, link_node,
  pop_head, release_holders,
}
use tiny_reactor.MpmcQueue.Invariant.{Ranked, Tied, last_node}

-- A thread that runs alone, whose exchanges do not fail without a reason.
unfoldable pub alone : (t steps : ℕ) → List Event
alone t zero = []
alone t (suc k) = steps false t ∷ alone t k

-- The steps from `reads_tail` on, when `curr_head` is `head`.
abbrev rounds : MpmcQueue → ℕ
rounds q = if q.next q.head == 0 then 5 else if q.head == q.tail then 16 else 8

abbrev lag : MpmcQueue → ℕ
lag q = if q.next q.tail == 0 then 0 else 4

abbrev to_help : MpmcQueue → ℕ → ℕ
to_help q ct = if q.tail == ct then 6 else 6 + lag q

abbrev to_link : MpmcQueue → ℕ → ℕ
to_link q ct = if q.next ct == 0 then 2 else 6 + lag q

abbrev to_swing : MpmcQueue → ℕ → ℕ
to_swing q ct = if q.tail == ct then 12 else 4 + rounds q

abbrev to_pop : MpmcQueue → ℕ → ℕ
to_pop q ch = if q.head == ch then 4 else 4 + rounds q

abbrev to_decide : MpmcQueue → (ch ct nx : ℕ) → ℕ
to_decide q ch ct nx =
    if ch == q.head
    then (if nx == 0 then 2 else if ch == ct then 1 + to_swing q ct else 1 + to_pop q ch)
    else 4 + rounds q

abbrev to_recheck : MpmcQueue → ℕ → ℕ
to_recheck q ch = if ch == q.head then 1 + rounds q else 4 + rounds q

-- The steps that the call of a thread at `pc` has left, when no other thread moves.
unfoldable pub remaining : MpmcQueue → Pc → ℕ
remaining q (rests r) = 0
remaining q (loads_tail n) = 5 + lag q
remaining q (loads_next n ct) = if ct == q.tail then 4 + lag q else 7 + lag q
remaining q (rechecks_tail n ct nx) =
    if ct == q.tail then (if nx == 0 then 1 + to_link q ct else 1 + to_help q ct) else 6 + lag q
remaining q (links n ct) = to_link q ct
remaining q (swings n ct) = 1
remaining q (helps n ct nx) = to_help q ct
remaining q loads_head = 3 + rounds q
remaining q (protects_head ch) = 1 + to_recheck q ch
remaining q (rechecks_head ch) = to_recheck q ch
remaining q (reads_tail ch) = if ch == q.head then rounds q else 7 + rounds q
remaining q (reads_next ch ct) = 2 + to_decide q ch ct (q.next ch)
remaining q (protects_next ch ct nx) = 1 + to_decide q ch ct nx
remaining q (rechecks_next ch ct nx) = to_decide q ch ct nx
remaining q (swings_for ch ct nx) = to_swing q ct
remaining q (pops ch nx) = to_pop q ch
remaining q returns_false = 1
remaining q (reads_data ch nx) = 3
remaining q (releases_holders ch v) = 2
remaining q (retires ch v) = 1

pub remaining_le : (q : MpmcQueue) (pc : Pc) → remaining q pc ≤ 23
unfolding remaining
remaining_le q (rests r) = omega arith
remaining_le q pc = ground arith

module _ {rank : ℕ → ℕ} {len : ℕ} (q : MpmcQueue) (r : Ranked rank len q) where
  open r use {ordered, linked, bounded, known, unique, places}

  -- Once `tail` has moved on, there is a node to pop.
  swung : (ct nx : ℕ) → q.tail ≡ ct → q.next ct ≡ nx → nx ≢ 0 → (q.next q.head ≢ 0) × (q.head ≢ nx)
  swung ct nx e f h = (
    ground (arith, linked q.head, bounded nx, ordered ct, places),
    ground (arith, ordered ct, places),
  )

module _ {rank : ℕ → ℕ} {len : ℕ} (t : ℕ) (q : MpmcQueue) (r : Ranked rank len q) where
  open r use {ordered, linked, bounded, known, unique, places}

  reads_tail_here :
      suc (2 + to_decide q q.head q.tail (q.next q.head))
      ≤ (if q.head == q.head then rounds q else 7 + rounds q)
  reads_tail_here = elim (Bool-cases (q.next q.head == 0)) [
    | inl null ↦ rw (==_self q.head, null) (omega arith)
    | inr real ↦ elim (Bool-cases (q.head == q.tail)) [
      | inl lags ↦ rw (==_self q.head, real, lags, ==_self q.tail) (ground arith)
      | inr ahead ↦ rw (==_self q.head, real, ahead) (omega arith)
    ]
  ]

  pub advance-remaining :
      (pc : Pc)
      → Tied rank q t pc
      → let e = advance false t pc q in
        (remaining q pc ≡ 0) ⊎ (suc (remaining e (e.threads t)) ≤ remaining q pc)
  unfolding advance link_node pop_head release_holders Tied remaining
  advance-remaining (rests v) k = inl refl
  advance-remaining (loads_tail n) k = inr (rw (==_self t) (ground arith))
  advance-remaining (loads_next n ct) k = inr (rw (==_self t) (ground arith))
  advance-remaining (rechecks_tail n ct nx) k = inr (
      rw (==_self t) (elim (Bool-cases (ct == q.tail)) [
        | inr other ↦ rw other (omega arith)
        | inl same ↦ elim (Bool-cases (nx == 0)) [
          | inl null ↦ rw (same, null) (omega arith)
          | inr real ↦ rw (same, real) (omega arith)
        ]
      ]))
  advance-remaining (links n ct) k = inr (elim (Bool-cases (q.next ct == 0)) [
    | inl null ↦ rw (null, ==_self t) (omega arith)
    | inr real ↦ rw (real, ==_self t) (omega arith)
  ])
  advance-remaining (helps n ct nx) k = inr (
      rw (==_self t) (elim (Bool-cases (q.tail == ct)) [
        | inl same ↦ rw same (ground (arith, last_node q r nx))
        | inr other ↦ rw other (omega arith)
      ]))
  advance-remaining (swings n ct) k = inr (rw (==_self t) (omega arith))
  advance-remaining (swings_for ch ct nx) k = inr (
      rw (==_self t) (elim (Bool-cases (q.tail == ct)) [
        | inl same ↦ rw same (ground (arith, swung q r ct nx))
        | inr other ↦ rw other (omega arith)
      ]))
  advance-remaining loads_head k = inr (rw (==_self t, ==_self q.head) (omega arith))
  advance-remaining (protects_head ch) k = inr (rw (==_self t) (omega arith))
  advance-remaining (rechecks_head ch) k = inr (
      rw (==_self t) (elim (Bool-cases (ch == q.head)) [
        | inl same ↦ rw (same, same) (omega arith)
        | inr other ↦ rw other (omega arith)
      ]))
  advance-remaining (reads_tail ch) k = inr (
      rw (==_self t) (elim (Bool-cases (ch == q.head)) [
        | inr other ↦ rw other (omega arith)
        | inl same ↦ let here : ch ≡ q.head = ground arith in rw here reads_tail_here
      ]))
  advance-remaining (reads_next ch ct) k = inr (rw (==_self t) (omega arith))
  advance-remaining (protects_next ch ct nx) k = inr (rw (==_self t) (omega arith))
  advance-remaining (rechecks_next ch ct nx) k = inr (
      rw (==_self t) (elim (Bool-cases (ch == q.head)) [
        | inr other ↦ rw other (omega arith)
        | inl same ↦ elim (Bool-cases (nx == 0)) [
          | inl null ↦ rw (same, null) (omega arith)
          | inr real ↦ elim (Bool-cases (ch == ct)) [
            | inl lags ↦ rw (same, real, lags) (omega arith)
            | inr ahead ↦ rw (same, real, ahead) (omega arith)
          ]
        ]
      ]))
  advance-remaining (pops ch nx) k = inr (elim (Bool-cases (q.head == ch)) [
    | inl same ↦ rw (same, ==_self t) (omega arith)
    | inr other ↦ rw (other, ==_self t) (omega arith)
  ])
  advance-remaining returns_false k = inr (rw (==_self t) (omega arith))
  advance-remaining (reads_data ch nx) k = inr (rw (==_self t) (omega arith))
  advance-remaining (releases_holders ch v) k = inr (rw (==_self t) (omega arith))
  advance-remaining (retires ch v) k = inr (rw (==_self t) (omega arith))

pub remaining-rests :
    (q : MpmcQueue) (pc : Pc) → remaining q pc ≡ 0 → (o : Option ℕ) × (pc ≡ rests o)
unfolding remaining
remaining-rests q (rests o) h = (o, refl)
remaining-rests q pc h = absurd (ground arith)
