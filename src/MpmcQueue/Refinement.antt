-- ===== src/MpmcQueue/Refinement.antt =====
-- mpmc_queue.hpp: every interleaving of `enqueue` and `dequeue` is a queue of data.
use tiny_reactor.Base.{
  ℕ, zero, suc, any, not, true, false, ◌&&◌, update, Bool, ◌≡◌, ◌≢◌, ◌==◌, if◌then◌else◌, refl, sym,
  subst, arith, inl, inr, List, [], ◌∷◌, Bool-cases, tally,
}
use tiny_reactor.MpmcQueue.{
  MpmcQueue, Pc, Event, enqueues, dequeues, steps, checks, looks, Check, no_check, at_next, at_head,
  start_check, check_slot, make_queue, step, run, rests, loads_tail, loads_next, links,
  rechecks_tail, helps, loads_head, enqueue, dequeue, is_free, recycle, new_node, reuses,
  none_reused,
}
use tiny_reactor.MpmcQueue.Chains.{View, Chain, replay}
use tiny_reactor.MpmcQueue.Invariant.{Ranked, Valid, own, out, Tied, Tied-kept}
use tiny_reactor.MpmcQueue.Moves.{Moved, becomes, apart_update, moves_on, stays}
use tiny_reactor.MpmcQueue.Exchanges.{new_node-Moved}
use tiny_reactor.MpmcQueue.Reclaim.{Single, Moved-Single}
use tiny_reactor.MpmcQueue.Steps.{advance-Moved}

pub recycle-kept : (a : ℕ) (q : MpmcQueue) → q.freed a ≡ false → recycle a q ≡ q
unfolding recycle
recycle-kept a q h = rw h refl

module _ {rank : ℕ → ℕ} {len t : ℕ} (q : MpmcQueue) (r : Ranked rank len q) where
  enqueue-Moved :
      (v a : ℕ) (pc : Pc)
      → q.freed a ≡ false
      → q.threads t ≡ pc
      → Tied rank q t pc
      → Moved rank len t pc q (enqueue t v a pc q)
  unfolding enqueue is_free
  enqueue-Moved v a (rests o) kept e k = elim (Bool-cases (is_free a q)) [
    | inl free ↦ rw free (
        subst (λ x. Moved rank len t (rests o) q (new_node t v a x)) (sym (recycle-kept a q kept))
          (new_node-Moved q r v a (ground arith) (ground arith)))
    | inr used ↦ rw used (stays q r (rests o) e k)
  ]
  enqueue-Moved v a pc kept e k = stays q r pc e k

  dequeue-Moved :
      (pc : Pc) → q.threads t ≡ pc → Tied rank q t pc → Moved rank len t pc q (dequeue t pc q)
  unfolding dequeue own out Tied
  dequeue-Moved (rests o) e k = moves_on q r loads_head (inl refl, inl refl) tt
  dequeue-Moved pc e k = stays q r pc e k

module _ {rank : ℕ → ℕ} {len : ℕ} (q : MpmcQueue) (r : Ranked rank len q)
    (k : Tied rank q 0 (q.threads 0)) where
  -- No thread moves when the domain checks and deletes nodes.
  domain-Moved :
      (freed : ℕ → Bool) (check : Check)
      → Moved rank len 0 (q.threads 0) q (record q { freed = freed; check = check })
  unfolding Tied
  domain-Moved freed check =
      becomes q r (q.threads 0) q.tail q.hp_head q.hp_next q.retired freed check q.threads
        (λ u. ground arith) (omega arith) (inr refl) (inl (refl, inr (inl refl))) k

  start_check-Moved : (n a : ℕ) (c : Check) → Moved rank len 0 (q.threads 0) q (start_check n a c q)
  unfolding start_check
  start_check-Moved n a no_check =
      elim (Bool-cases (any (λ x. x == a) q.retired && not (q.freed a))) [
        | inl found ↦ rw found (domain-Moved q.freed (at_next a n))
        | inr other ↦ rw other (domain-Moved q.freed q.check)
      ]
  start_check-Moved n a c = domain-Moved q.freed q.check

  check_slot-Moved : (c : Check) → Moved rank len 0 (q.threads 0) q (check_slot c q)
  unfolding check_slot
  check_slot-Moved no_check = domain-Moved q.freed q.check
  check_slot-Moved (at_next a zero) = domain-Moved (update q.freed a true) no_check
  check_slot-Moved (at_next a (suc k)) = domain-Moved q.freed _
  check_slot-Moved (at_head a k) = domain-Moved q.freed _

-- The thread that an event moves; 0 stands for none.
abbrev mover : Event → ℕ
mover (enqueues t v a) = t
mover (dequeues t) = t
mover (steps fails t) = t
mover (checks n a) = 0
mover looks = 0

step-Moved :
    {rank : ℕ → ℕ} {len : ℕ} (e : Event) (q : MpmcQueue)
    → Valid rank len q
    → reuses e q ≡ false
    → Moved rank len (mover e) (q.threads (mover e)) q (step e q)
unfolding step reuses
step-Moved (enqueues t v a) q w h = enqueue-Moved q w.ranked v a (q.threads t) h refl (w.tied t)
step-Moved (dequeues t) q w h = dequeue-Moved q w.ranked (q.threads t) refl (w.tied t)
step-Moved (steps fails t) q w h = advance-Moved q w.ranked fails (q.threads t) refl (w.tied t)
step-Moved (checks n a) q w h = start_check-Moved q w.ranked (w.tied 0) n a q.check
step-Moved looks q w h = check_slot-Moved q w.ranked (w.tied 0) q.check

own_known :
    (rank : ℕ → ℕ) (q : MpmcQueue) (t : ℕ) (pc : Pc)
    → Tied rank q t pc
    → own pc ≢ 0
    → q.given (own pc) ≡ true
unfolding own Tied
own_known rank q t (loads_tail n) k h = k.1
own_known rank q t (loads_next n ct) k h = k.0.1
own_known rank q t (rechecks_tail n ct nx) k h = k.0.1
own_known rank q t (links n ct) k h = k.0.1
own_known rank q t (helps n ct nx) k h = k.0.1
own_known rank q t pc k h = absurd (h refl)

module _ {rank : ℕ → ℕ} {len t : ℕ} {q e : MpmcQueue} (w : Valid rank len q)
    (m : Moved rank len t (q.threads t) q e) where
  place_apart : (b : ℕ) → t ≢ b → own m.place ≢ 0 → own m.place ≢ own (q.threads b)
  place_apart b ne h = elim m.owns [
    | inl free ↦ absurd (h free)
    | inr (inl same) ↦ ground (arith, w.apart t b)
    | inr (inr new) ↦ ground (arith, own_known rank q b (q.threads b) (w.tied b))
  ]

-- A move of one thread leaves the others what they know.
Moved-Valid :
    {rank : ℕ → ℕ} {len t : ℕ} (q e : MpmcQueue)
    → Valid rank len q
    → (m : Moved rank len t (q.threads t) q e) → Valid m.rank' m.len' e
Moved-Valid {rank} {len} {t} q e w m =
    let known : (a : ℕ) → rank a ≢ 0 → q.given a ≡ true = λ a h. (w.ranked.known a h).1 in
    record {
      ranked = m.ranked;
      tied = λ u. rw (m.placed u) (elim (Bool-cases (t == u)) [
        | inl same ↦ rw same (subst (λ x. Tied m.rank' e x m.place) (ground arith) m.tied)
        | inr other ↦ rw other (
            Tied-kept m.grows u (q.threads u)
              (λ h. m.others (own (q.threads u)) (λ z. w.apart u t (λ x. ground arith) h (sym z)))
              (m.taken u (ground arith)) known (w.tied u))
      ]);
      apart = λ a b ne.
          rw (m.placed a, m.placed b)
            (apart_update own q.threads t m.place (place_apart w m) w.apart a b ne);
    }

-- Some order of the nodes is valid, and the view holds.
pub data Reached (q : MpmcQueue) : Type 0 where
  reached : {rank : ℕ → ℕ} {len : ℕ} → Valid rank len q → Single rank q → View q → Reached q

pub step-Reached : (e : Event) (q : MpmcQueue) → reuses e q ≡ false → Reached q → Reached (step e q)
step-Reached e q h (reached w s v) =
    let m = step-Moved e q w h in
    reached (Moved-Valid q (step e q) w m) (Moved-Single w s m) (m.viewed v)

-- A run without reuse is one in its first step and after it.
pub none_reused-cons :
    (e : Event) (es : List Event) (q : MpmcQueue)
    → none_reused (e ∷ es) q ≡ true
    → (reuses e q ≡ false) × (none_reused es (step e q) ≡ true)
unfolding none_reused
none_reused-cons e es q h = (ground arith, ground arith)

pub run-Reached :
    (es : List Event) (q : MpmcQueue) → none_reused es q ≡ true → Reached q → Reached (run es q)
unfolding run
run-Reached [] q n h = h
run-Reached (e ∷ es) q n h =
    let (first, rest) = none_reused-cons e es q n in
    run-Reached es (step e q) rest (step-Reached e q first h)

pub make_queue-Reached : Reached make_queue
unfolding make_queue tally Tied own out View replay Chain
make_queue-Reached =
    reached {rank = λ a. if a == 1 then 1 else 0} {len = 1}
      (record {
        ranked = record {
          ordered = λ a h. ground arith;
          linked = λ a h. ground arith;
          bounded = λ a. ground arith;
          known = λ a h. ground arith;
          unique = λ a b h e. ground arith;
          places = ground arith;
        };
        tied = λ t. tt;
        apart = λ t u ne h. absurd (h refl);
      })
      (record {
        once = λ a. omega arith;
        passed = λ a h. absurd (h refl);
        pending = λ t h. refl;
        distinct = λ t u ne h. absurd (h refl);
      })
      ([], refl, refl)
