-- ===== src/MpmcQueue/Exchanges.antt =====
-- mpmc_queue.hpp: the steps that change the nodes or `head`: a node is allocated, linked or passed.
use tiny_reactor.Base.{
  ℕ, suc, ◌≡◌, ◌≢◌, refl, sym, ap, ◌∙◌, ◌++◌, arith, inl, inr, false, some, List, [], ◌∷◌, update,
}
use tiny_reactor.MpmcQueue.{
  MpmcQueue, Pc, loads_tail, links, swings, pops, reads_data, goto, new_node, enqueued, dequeued,
}
use tiny_reactor.MpmcQueue.Chains.{View, Chain, Chain-kept, Chain-link, Chain-pop, replay}
use tiny_reactor.MpmcQueue.Invariant.{Ranked, own, out, last_taken, Tied}
use tiny_reactor.MpmcQueue.Moves.{Moved}

module _ {rank : ℕ → ℕ} {len : ℕ} (q : MpmcQueue) (r : Ranked rank len q) where
  open r use {ordered, linked, bounded, known, unique, places}

  IsLinked : ℕ → Type 0
  IsLinked a = rank a ≢ 0

  onward : (a : ℕ) → q.next a ≢ 0 → IsLinked (q.next a)
  unfolding IsLinked
  onward a h = omega (arith, (ordered a h).1)

  -- The data of a node linked at the end come last.
  View-link :
      (t n ct : ℕ)
      → q.next ct ≡ 0
      → rank ct ≡ len
      → rank ct ≢ 0
      → rank n ≡ 0
      → n ≢ 0
      → (vs : List ℕ) → replay q.history ≡ some vs
      → Chain q.next q.value q.head vs
      → (ws : List ℕ) × (replay (enqueued t (q.value n) ∷ q.history) ≡ some ws)
        × Chain (update q.next ct n) q.value q.head ws
  unfolding replay IsLinked
  View-link t n ct null at_end old fresh real vs e c = (
    vs ++ q.value n ∷ [],
    rw e refl,
    Chain-link q.next q.value IsLinked onward ct n
        (λ a h z. ground (arith, linked a, bounded a, unique a ct)) null (ground (arith, ordered n))
        real (ground arith) q.head vs places.0 c,
  )

  -- The data of the node after `head` come first.
  View-pop :
      (t nx : ℕ)
      → q.next q.head ≡ nx
      → nx ≢ 0
      → (vs : List ℕ) → replay q.history ≡ some vs
      → Chain q.next q.value q.head vs
      → (ws : List ℕ) × (replay (dequeued t (q.value nx) ∷ q.history) ≡ some ws)
        × Chain q.next q.value nx ws
  unfolding replay
  View-pop t nx same real vs e c =
      let (ws, first, rest) = Chain-pop q.next q.value q.head vs (λ z. real (sym same ∙ z)) c in
      rw (sym same) (ws, rw e first, rest)

  -- A node that is not linked may change.
  View-new :
      (n v : ℕ)
      → rank n ≡ 0
      → (vs : List ℕ) → Chain q.next q.value q.head vs
      → Chain (update q.next n 0) (update q.value n v) q.head vs
  unfolding IsLinked
  View-new n v fresh vs c =
      Chain-kept q.next q.value IsLinked onward _ _ (λ a h. ground arith) q.head vs places.0 c

module _ {rank : ℕ → ℕ} {len t : ℕ} (q : MpmcQueue) (r : Ranked rank len q) where
  open r use {ordered, linked, bounded, known, unique, places}

  -- The exchange at ① succeeds.
  pub links_node :
      (n ct : ℕ)
      → q.next ct ≡ 0
      → Tied rank q t (links n ct)
      → Moved rank len t (links n ct) q (
          goto t
            (swings n ct)
            (record q { next = update q.next ct n; history = enqueued t (q.value n) ∷ q.history }))
  unfolding Tied own out View replay last_taken
  links_node n ct null (mine, in_order) =
      let at_end : rank ct ≡ len = ground (arith, linked ct, bounded ct) in
      record {
        rank' = update rank n (suc len);
        len' = suc len;
        place = swings n ct;
        placed = λ u. refl;
        ranked = record {
          ordered = λ a h. ground (arith, ordered a);
          linked = λ a h b. ground (arith, linked a, bounded a, unique a ct);
          bounded = λ a. ground (arith, bounded a);
          known = λ a h. ground (arith, known a);
          unique = λ a b h e. ground (arith, unique a b, bounded a, bounded b);
          places = ground (arith, places);
        };
        grows = record {
          next_kept = λ a h. ground arith;
          rank_kept = λ a h. ground arith;
          value_kept = λ a _. refl;
          head_up = ground (arith, places);
          tail_up = ground (arith, places);
          more = λ a h. h;
        };
        tied = ground arith;
        others = λ m h. ground arith;
        owns = inl refl;
        taken = λ u _. refl;
        retires_out = inl (refl, inl refl);
        viewed = λ (vs, e, c). View-link q r t n ct null at_end in_order.0 mine.2 mine.0 vs e c;
      }

  -- The exchange at ③ succeeds.
  pub pops_head :
      (ch nx : ℕ)
      → q.head ≡ ch
      → Tied rank q t (pops ch nx)
      → Moved rank len t (pops ch nx) q (
          goto t
            (reads_data ch nx)
            (record q { head = nx; history = dequeued t (q.value nx) ∷ q.history }))
  unfolding Tied own out View replay last_taken
  pops_head ch nx here k = record {
    rank' = rank;
    len' = len;
    place = reads_data ch nx;
    placed = λ u. refl;
    ranked = record {
      ordered = ordered;
      linked = linked;
      bounded = bounded;
      known = known;
      unique = unique;
      places = ground (arith, places, ordered ch);
    };
    grows = record {
      next_kept = λ a h. refl;
      rank_kept = λ a h. refl;
      value_kept = λ a _. refl;
      head_up = ground (arith, ordered ch);
      tail_up = omega arith;
      more = λ a h. h;
    };
    tied = ground (arith, ordered ch);
    others = λ m h. refl;
    owns = inl refl;
    taken = λ u h. ground arith;
    retires_out = inl (refl, inr (inr (sym here)));
    viewed = λ (vs, e, c). View-pop q r t nx (ap q.next here ∙ k.3) k.2 vs e c;
  }

  -- `enqueue` allocates its node.
  pub new_node-Moved :
      {old : Pc} (v a : ℕ) → a ≢ 0 → q.given a ≡ false → Moved rank len t old q (new_node t v a q)
  unfolding new_node Tied own out View
  new_node-Moved v n real new =
      let fresh : rank n ≡ 0 = ground (arith, known n) in
      record {
        rank' = rank;
        len' = len;
        place = loads_tail n;
        placed = λ u. refl;
        ranked = record {
          ordered = λ a h. ground (arith, ordered a);
          linked = λ a h b. ground (arith, linked a);
          bounded = bounded;
          known = λ a h. ground (arith, known a);
          unique = unique;
          places = places;
        };
        grows = record {
          next_kept = λ a h. ground (arith, ordered a);
          rank_kept = λ a h. refl;
          value_kept = λ a h. ground arith;
          head_up = omega arith;
          tail_up = omega arith;
          more = λ a h. ground arith;
        };
        tied = ground (arith, known q.head, places);
        others = λ m h. refl;
        owns = inr (inr new);
        taken = λ u h. refl;
        retires_out = inl (refl, inl refl);
        viewed = λ (vs, e, c). (vs, e, View-new q r n v fresh vs c);
      }
