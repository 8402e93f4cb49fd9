-- ===== src/MpmcQueue/Steps.antt =====
-- mpmc_queue.hpp: each step of a thread as a move.
use tiny_reactor.Base.{ℕ, ◌≡◌, ◌==◌, refl, Bool, true, false, arith, inl, inr, Bool-cases}
use tiny_reactor.MpmcQueue.{
  MpmcQueue, Pc, rests, loads_tail, loads_next, links, swings, rechecks_tail, helps, loads_head,
  returns_false, protects_head, rechecks_head, reads_tail, reads_next, protects_next, rechecks_next,
  swings_for, pops, reads_data, releases_holders, retires, goto, exchanges, link_node, pop_head,
  release_holders, advance,
}
use tiny_reactor.MpmcQueue.Invariant.{Ranked, own, out, Tied}
use tiny_reactor.MpmcQueue.Moves.{Moved, becomes, moves_on, goes, stays, either, swings_tail}
use tiny_reactor.MpmcQueue.Exchanges.{links_node, pops_head}

head_matches :
    (q : MpmcQueue) (fails : Bool) (ch : ℕ) → exchanges fails q.head ch ≡ true → q.head ≡ ch
head_matches q true ch e = ground arith
head_matches q false ch e = ground arith

module _ {rank : ℕ → ℕ} {len t : ℕ} (q : MpmcQueue) (r : Ranked rank len q) where
  open r use {ordered, linked, bounded, known, unique, places}

  pub link_node-Moved :
      (fails : Bool) (n ct : ℕ)
      → Tied rank q t (links n ct)
      → Moved rank len t (links n ct) q (link_node fails t n ct q)
  unfolding link_node Tied own out
  link_node-Moved true n ct k = moves_on q r _ (inr refl, inl refl) k.0
  link_node-Moved false n ct k = elim (Bool-cases (q.next ct == 0)) [
    | inl null ↦ rw null (links_node q r n ct (ground arith) k)
    | inr real ↦ rw real (moves_on q r _ (inr refl, inl refl) k.0)
  ]

  pub pop_head-Moved :
      (fails : Bool) (ch nx : ℕ)
      → Tied rank q t (pops ch nx)
      → Moved rank len t (pops ch nx) q (pop_head fails t ch nx q)
  unfolding pop_head Tied own out
  pop_head-Moved fails ch nx k = elim (Bool-cases (exchanges fails q.head ch)) [
    | inl same ↦ rw same (pops_head q r ch nx (head_matches q fails ch same) k)
    | inr other ↦ rw other (moves_on q r loads_head (inl refl, inl refl) tt)
  ]

  pub advance-Moved :
      (fails : Bool) (pc : Pc)
      → q.threads t ≡ pc
      → Tied rank q t pc
      → Moved rank len t pc q (advance fails t pc q)
  unfolding advance release_holders Tied own out
  advance-Moved fails (rests v) e k = stays q r (rests v) e k
  advance-Moved fails (loads_tail n) e k =
      moves_on q r _ (inr refl, inl refl) (ground (arith, places))
  advance-Moved fails (loads_next n ct) e k =
      moves_on q r _ (inr refl, inl refl) (ground (arith, places))
  advance-Moved fails (rechecks_tail n ct nx) e k =
      either (λ pc. Moved rank len t (rechecks_tail n ct nx) q (goto t pc q)) (ct == q.tail)
        (λ same.
          either (λ pc. Moved rank len t (rechecks_tail n ct nx) q (goto t pc q)) (nx == 0)
            (λ null. moves_on q r (links n ct) (inr refl, inl refl) (k.0, k.1))
            (λ real. moves_on q r (helps n ct nx) (inr refl, inl refl) (ground arith)))
        (λ other. moves_on q r (loads_tail n) (inr refl, inl refl) k.0)
  advance-Moved fails (links n ct) e k = link_node-Moved fails n ct k
  advance-Moved fails (swings n ct) e (a, b) =
      swings_tail q r (swings n ct) _ fails ct n a b (inl refl, inl refl) tt
  advance-Moved fails (helps n ct nx) e (o, a, b) =
      swings_tail q r (helps n ct nx) _ fails ct nx a b (inr refl, inl refl) o
  advance-Moved fails loads_head e k = moves_on q r _ (inl refl, inl refl) (ground (arith, places))
  advance-Moved fails (protects_head ch) e k =
      goes q r _ q.tail _ _ (omega arith) (inl refl, inl refl) k
  advance-Moved fails (rechecks_head ch) e k =
      either (λ pc. Moved rank len t (rechecks_head ch) q (goto t pc q)) (ch == q.head)
        (λ same. moves_on q r (reads_tail ch) (inl refl, inl refl) k)
        (λ other. moves_on q r loads_head (inl refl, inl refl) tt)
  advance-Moved fails (reads_tail ch) e k =
      moves_on q r _ (inl refl, inl refl) (ground (arith, places))
  advance-Moved fails (reads_next ch ct) e k =
      moves_on q r _ (inl refl, inl refl) (ground (arith, places))
  advance-Moved fails (protects_next ch ct nx) e k =
      goes q r _ q.tail _ _ (omega arith) (inl refl, inl refl) k
  advance-Moved fails (rechecks_next ch ct nx) e k =
      either (λ pc. Moved rank len t (rechecks_next ch ct nx) q (goto t pc q)) (ch == q.head)
        (λ same.
          either (λ pc. Moved rank len t (rechecks_next ch ct nx) q (goto t pc q)) (nx == 0)
            (λ null. moves_on q r returns_false (inl refl, inl refl) tt)
            (λ real.
              either (λ pc. Moved rank len t (rechecks_next ch ct nx) q (goto t pc q)) (ch == ct)
                (λ lag. moves_on q r (swings_for ch ct nx) (inl refl, inl refl) (ground arith))
                (λ ahead.
                  moves_on q r (pops ch nx) (inl refl, inl refl) (ground (arith, unique ch ct)))))
        (λ other. moves_on q r loads_head (inl refl, inl refl) tt)
  advance-Moved fails (swings_for ch ct nx) e (a, b) =
      swings_tail q r (swings_for ch ct nx) _ fails ct nx a b (inl refl, inl refl) tt
  advance-Moved fails (pops ch nx) e k = pop_head-Moved fails ch nx k
  advance-Moved fails returns_false e k =
      goes q r _ q.tail _ _ (omega arith) (inl refl, inl refl) tt
  advance-Moved fails (reads_data ch nx) e k = moves_on q r _ (inl refl, inr refl) (ground arith)
  advance-Moved fails (releases_holders ch v) e k =
      goes q r _ q.tail _ _ (omega arith) (inl refl, inr refl) (ground arith)
  advance-Moved fails (retires ch v) e k =
      becomes q r _ q.tail q.hp_head q.hp_next _ q.freed q.check _ (λ u. refl) (omega arith)
        (inl refl) (inr (refl, refl, (known ch k.0.0).0)) (ground arith)
