-- ===== src/MpmcQueue/Guarding.antt =====
-- mpmc_queue.hpp with hazard_pointer.hpp: each step of a call guards what it reads next.
use tiny_reactor.Base.{
  ℕ, ◌≡◌, ◌≢◌, ◌≤◌, ◌==◌, refl, sym, subst, Bool, true, false, ◌||◌, arith, inl, inr, Bool-cases,
  tally, ==_self,
}
use tiny_reactor.MpmcQueue.{
  MpmcQueue, Check, Pc, rests, links, rechecks_tail, protects_head, rechecks_head, reads_tail,
  protects_next, rechecks_next, pops, goto, exchanges, is_free, new_node, link_node, pop_head,
  release_holders, advance, enqueue, dequeue,
}
use tiny_reactor.MpmcQueue.Moves.{either}
use tiny_reactor.MpmcQueue.Invariant.{Ranked, Tied}
use tiny_reactor.MpmcQueue.Reclaim.{Single, times}
use tiny_reactor.MpmcQueue.Refinement.{recycle-kept}
use tiny_reactor.MpmcQueue.Guards.{
  passed_head, passed_next, is_checked, lost_head, lost_next, is_chosen, Guard, Guard-kept, Aside,
}

pub advance-Aside :
    (fails : Bool) (t : ℕ) (pc : Pc) (q : MpmcQueue) → Aside t q (advance fails t pc q)
unfolding advance link_node pop_head release_holders tally
advance-Aside fails t (rests v) q = record {
  threads_kept = λ u ne. refl;
  hp_head_kept = λ u ne. refl;
  hp_next_kept = λ u ne. refl;
  freed_kept = refl;
  check_kept = refl;
  retired_kept = λ a. omega arith;
}
advance-Aside fails t pc q = record {
  threads_kept = λ u ne. ground arith;
  hp_head_kept = λ u ne. ground arith;
  hp_next_kept = λ u ne. ground arith;
  freed_kept = ground arith;
  check_kept = ground arith;
  retired_kept = λ a. ground arith;
}

same-Aside : (t : ℕ) (q : MpmcQueue) → Aside t q q
same-Aside t q = record {
  threads_kept = λ u ne. refl;
  hp_head_kept = λ u ne. refl;
  hp_next_kept = λ u ne. refl;
  freed_kept = refl;
  check_kept = refl;
  retired_kept = λ a. omega arith;
}

new_node-Aside : (t v n : ℕ) (q : MpmcQueue) → Aside t q (new_node t v n q)
unfolding new_node
new_node-Aside t v n q = record {
  threads_kept = λ u ne. ground arith;
  hp_head_kept = λ u ne. refl;
  hp_next_kept = λ u ne. refl;
  freed_kept = refl;
  check_kept = refl;
  retired_kept = λ a. omega arith;
}

-- A node at an address that was not that of a deleted node.
pub enqueue-Aside :
    (t v n : ℕ) (pc : Pc) (q : MpmcQueue) → q.freed n ≡ false → Aside t q (enqueue t v n pc q)
unfolding enqueue
enqueue-Aside t v n (rests o) q kept = elim (Bool-cases (is_free n q)) [
  | inl free ↦ rw free (
      subst (λ x. Aside t q (new_node t v n x)) (sym (recycle-kept n q kept))
        (new_node-Aside t v n q))
  | inr used ↦ rw used (same-Aside t q)
]
enqueue-Aside t v n pc q kept = same-Aside t q

pub dequeue-Aside : (t : ℕ) (pc : Pc) (q : MpmcQueue) → Aside t q (dequeue t pc q)
unfolding dequeue
dequeue-Aside t (rests o) q = record {
  threads_kept = λ u ne. ground arith;
  hp_head_kept = λ u ne. ground arith;
  hp_next_kept = λ u ne. ground arith;
  freed_kept = ground arith;
  check_kept = ground arith;
  retired_kept = λ a. ground arith;
}
dequeue-Aside t pc q = record {
  threads_kept = λ u ne. refl;
  hp_head_kept = λ u ne. refl;
  hp_next_kept = λ u ne. refl;
  freed_kept = refl;
  check_kept = refl;
  retired_kept = λ a. omega arith;
}

goes_on :
    (q : MpmcQueue) (t : ℕ) (pc : Pc)
    → Guard q t pc
    → Guard (goto t pc q) t ((goto t pc q).threads t)
goes_on q t pc g =
    rw (==_self t) (Guard-kept q (goto t pc q) t pc refl refl (λ a k l. l) (λ a k l. l) g)

pub enqueue-Guard :
    (t v n : ℕ) (pc : Pc) (q : MpmcQueue)
    → Guard q t pc
    → let e = enqueue t v n pc q in q.threads t ≡ pc → Guard e t (e.threads t)
unfolding enqueue new_node Guard
enqueue-Guard t v n (rests o) q g at = elim (Bool-cases (is_free n q)) [
  | inl free ↦ rw (free, ==_self t) tt
  | inr used ↦ rw (used, at) tt
]
enqueue-Guard t v n pc q g at = subst (Guard q t) (sym at) g

pub dequeue-Guard :
    (t : ℕ) (pc : Pc) (q : MpmcQueue)
    → Guard q t pc
    → let e = dequeue t pc q in q.threads t ≡ pc → Guard e t (e.threads t)
unfolding dequeue Guard
dequeue-Guard t (rests o) q g at = rw (==_self t) tt
dequeue-Guard t pc q g at = subst (Guard q t) (sym at) g

checked_head :
    (c : Check) (t a : ℕ) (b : Bool)
    → (b || is_checked c a) ≡ false
    → (b || passed_head c t a) ≡ false
unfolding is_checked passed_head
checked_head c t a b h = ground arith

checked_next :
    (c : Check) (t a : ℕ) (b : Bool)
    → (b || is_checked c a) ≡ false
    → (b || passed_next c t a) ≡ false
unfolding is_checked passed_next
checked_next c t a b h = ground arith

module _ {rank : ℕ → ℕ} {len : ℕ} (q : MpmcQueue) (r : Ranked rank len q) (s : Single rank q)
    (first : (a : ℕ) → is_chosen q a ≡ true → times a q.retired ≢ 0) where
  -- A node that is not before `head` is not chosen.
  unchosen : (a : ℕ) → rank q.head ≤ rank a → is_chosen q a ≡ false
  unchosen a le = elim (Bool-cases (is_chosen q a)) [
    | inr kept ↦ kept
    | inl chosen ↦ absurd (ground (arith, s.passed a, first a))
  ]

  safe_head : (t a : ℕ) → rank q.head ≤ rank a → lost_head q t a ≡ false
  safe_head t a le = checked_head q.check t a (q.freed a) (unchosen a le)

  safe_next : (t a : ℕ) → rank q.head ≤ rank a → lost_next q t a ≡ false
  safe_next t a le = checked_next q.check t a (q.freed a) (unchosen a le)

  pub advance-Guard :
      (fails : Bool) (t : ℕ) (pc : Pc)
      → Tied rank q t pc
      → Guard q t pc
      → let e = advance fails t pc q in q.threads t ≡ pc → Guard e t (e.threads t)
  unfolding advance link_node pop_head release_holders Guard Tied
  advance-Guard fails t (rests v) k g at = subst (Guard q t) (sym at) tt
  advance-Guard fails t (rechecks_tail n ct nx) k g at = goes_on q t _ (
      either (Guard q t) (ct == q.tail)
        (λ same. either (Guard q t) (nx == 0) (λ null. tt) (λ real. tt)) (λ other. tt))
  advance-Guard fails t (links n ct) k g at = elim (Bool-cases (exchanges fails (q.next ct) 0)) [
    | inl same ↦ rw (same, ==_self t) tt
    | inr other ↦ rw (other, ==_self t) tt
  ]
  advance-Guard fails t (protects_head ch) k g at = rw (==_self t) (ground arith)
  advance-Guard fails t (rechecks_head ch) k g at =
      goes_on q t _ (
        either (Guard q t) (ch == q.head) (λ same. (g, safe_head t ch (ground arith)))
          (λ other. tt))
  advance-Guard fails t (reads_tail ch) k g at = rw (==_self t) g
  advance-Guard fails t (protects_next ch ct nx) k g at = rw (==_self t) (ground arith)
  advance-Guard fails t (rechecks_next ch ct nx) k g at = goes_on q t _ (
      either (Guard q t) (ch == q.head)
        (λ same.
          either (Guard q t) (nx == 0) (λ null. tt)
            (λ real.
              either (Guard q t) (ch == ct) (λ lag. tt)
                (λ ahead. (g, safe_next t nx (ground (arith, r.ordered ch))))))
        (λ other. tt))
  advance-Guard fails t (pops ch nx) k g at = elim (Bool-cases (exchanges fails q.head ch)) [
    | inl same ↦ rw (same, ==_self t) g
    | inr other ↦ rw (other, ==_self t) tt
  ]
  advance-Guard fails t _ k g at = rw (==_self t) tt
