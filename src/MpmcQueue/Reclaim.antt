-- ===== src/MpmcQueue/Reclaim.antt =====
-- mpmc_queue.hpp: the nodes that `dequeue` hands to `RetirePointer`.
use tiny_reactor.Base.{
  ℕ, ◌≡◌, ◌≢◌, ◌≤◌, ◌<◌, ◌==◌, refl, sym, ◌∙◌, arith, inl, inr, List, Bool-cases, tally, subst,
}
use tiny_reactor.MpmcQueue.{MpmcQueue, Pc, reads_data, releases_holders, retires}
use tiny_reactor.MpmcQueue.Invariant.{Valid, out, Tied}
use tiny_reactor.MpmcQueue.Moves.{Moved, apart_update}

-- How often a node is in a list of nodes.
abbrev pub times : ℕ → List ℕ → ℕ
times a = tally (λ x. x == a)

-- No node is retired twice or is to be, and a retired node is before `head`.
pub record Single (rank : ℕ → ℕ) (q : MpmcQueue) : Type 0 where
  pub once : (a : ℕ) → times a q.retired ≤ 1
  pub passed : (a : ℕ) → times a q.retired ≢ 0 → (rank a ≢ 0) × (rank a < rank q.head)
  pub pending : (t : ℕ) → out (q.threads t) ≢ 0 → times (out (q.threads t)) q.retired ≡ 0
  pub distinct : (t u : ℕ) → t ≢ u → out (q.threads t) ≢ 0 → out (q.threads t) ≢ out (q.threads u)

out_known :
    (rank : ℕ → ℕ) (q : MpmcQueue) (t : ℕ) (pc : Pc)
    → Tied rank q t pc
    → out pc ≢ 0
    → (rank (out pc) ≢ 0) × (rank (out pc) < rank q.head)
unfolding out Tied
out_known rank q t (reads_data ch nx) k h = k.0
out_known rank q t (releases_holders ch v) k h = k.0
out_known rank q t (retires ch v) k h = k.0
out_known rank q t pc k h = absurd (h refl)

module _ {rank : ℕ → ℕ} {len t : ℕ} {q e : MpmcQueue} (w : Valid rank len q) (s : Single rank q)
    (m : Moved rank len t (q.threads t) q e) where
  open s use {once, passed, pending, distinct}

  abbrev old : ℕ
  old = out (q.threads t)

  known :
      (u : ℕ)
      → out (q.threads u) ≢ 0
      → (rank (out (q.threads u)) ≢ 0) × (rank (out (q.threads u)) < rank q.head)
  known u = out_known rank q u (q.threads u) (w.tied u)

  -- The node that the thread holds after the step was taken by no other thread.
  place_distinct : (u : ℕ) → t ≢ u → out m.place ≢ 0 → out m.place ≢ out (q.threads u)
  place_distinct u ne h z = elim m.retires_out [
    | inl (_, inl free) ↦ h free
    | inl (_, inr (inl same)) ↦ distinct t u ne (λ y. h (same ∙ y)) (sym same ∙ z)
    | inl (_, inr (inr top)) ↦ ground (arith, known u)
    | inr (_, free, _) ↦ h free
  ]

  place_pending : out m.place ≢ 0 → times (out m.place) e.retired ≡ 0
  place_pending h = elim m.retires_out [
    | inl (kept, inl free) ↦ absurd (h free)
    | inl (kept, inr (inl same)) ↦ rw (kept, same) (pending t (λ y. h (same ∙ y)))
    | inl (kept, inr (inr top)) ↦ rw (kept, top) (ground (arith, passed q.head))
    | inr (_, free, _) ↦ absurd (h free)
  ]

  other_pending : (u : ℕ) → t ≢ u → out (q.threads u) ≢ 0 → times (out (q.threads u)) e.retired ≡ 0
  unfolding tally
  other_pending u ne h = elim m.retires_out [
    | inl (kept, _) ↦ rw kept (pending u h)
    | inr (more, _, real) ↦ rw more (ground (arith, pending u, distinct t u))
  ]

  retired_once : (a : ℕ) → times a e.retired ≤ 1
  unfolding tally
  retired_once a = elim m.retires_out [
    | inl (kept, _) ↦ rw kept (once a)
    | inr (more, _, real) ↦ rw more (ground (arith, pending t real, once a))
  ]

  abbrev IsPassed : ℕ → Type 0
  IsPassed a = (rank a ≢ 0) × (rank a < rank q.head)

  later : (a : ℕ) → IsPassed a → (m.rank' a ≢ 0) × (m.rank' a < m.rank' e.head)
  later a h = ground (arith, m.grows.head_up, m.grows.rank_kept a)

  retired_passed : (a : ℕ) → times a e.retired ≢ 0 → (m.rank' a ≢ 0) × (m.rank' a < m.rank' e.head)
  unfolding tally
  retired_passed a h = elim m.retires_out [
    | inl (kept, _) ↦ later a (passed a (λ z. h (rw kept z)))
    | inr (more, _, real) ↦ elim (Bool-cases (old == a)) [
      | inl same ↦ later a (subst IsPassed (ground arith) (known t real))
      | inr other ↦ later a (passed a (λ z. h (rw (more, other) (omega (arith, z)))))
    ]
  ]

  pub Moved-Single : Single m.rank' e
  Moved-Single = record {
    once = retired_once;
    passed = retired_passed;
    pending = λ u. rw (m.placed u) (elim (Bool-cases (t == u)) [
      | inl same ↦ rw same place_pending
      | inr other ↦ rw other (other_pending u (ground arith))
    ]);
    distinct = λ a b ne.
        rw (m.placed a, m.placed b)
          (apart_update out q.threads t m.place place_distinct distinct a b ne);
  }
