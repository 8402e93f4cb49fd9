-- ===== src/MpmcQueue/Chains.antt =====
-- mpmc_queue.hpp: the abstract queue, a list of data, on which what took effect is replayed, and the
-- chains of nodes that carry such a list.
use tiny_reactor.Base.{
  ℕ, ◌≡◌, ◌≢◌, refl, ◌∙◌, ==_self, Option, none, some, List, [], ◌∷◌, ◌++◌, ◌==◌, if◌then◌else◌,
  update, arith, false,
}
use tiny_reactor.MpmcQueue.{MpmcQueue, Op, enqueued, dequeued}

-- What a queue of data allows: to put an item at its end, or to take the first.
abbrev pub take_front : ℕ → List ℕ → Option (List ℕ)
take_front v [] = none
take_front v (x ∷ xs) = if x == v then some xs else none

abbrev pub perform : Op → List ℕ → Option (List ℕ)
perform (enqueued t v) xs = some (xs ++ v ∷ [])
perform (dequeued t v) xs = take_front v xs

abbrev pub and_then : Option (List ℕ) → (List ℕ → Option (List ℕ)) → Option (List ℕ)
and_then none f = none
and_then (some xs) f = f xs

-- What the queue holds after a history, whose newest part comes first: none if the history takes
-- what is not at the front.
unfoldable pub replay : List Op → Option (List ℕ)
replay [] = some []
replay (o ∷ os) = and_then (replay os) (perform o)

-- The nodes after `a` carry `vs`, and no more nodes follow.
unfoldable pub Chain : (next value : ℕ → ℕ) → (a : ℕ) → List ℕ → Type 0
Chain next value a [] = next a ≡ 0
Chain next value a (v ∷ vs) = (next a ≢ 0) × (value (next a) ≡ v) × Chain next value (next a) vs

-- The replayed history is what the chain after `head` carries.
unfoldable pub View : MpmcQueue → Type 0
unfolding Chain
View q = (vs : List ℕ) × (replay q.history ≡ some vs) × Chain q.next q.value q.head vs

module _ (next value : ℕ → ℕ) (IsNode : ℕ → Type 0)
    (onward : (a : ℕ) → next a ≢ 0 → IsNode (next a)) where
  -- What changes no node of a chain leaves the chain.
  pub Chain-kept :
      (next' value' : ℕ → ℕ)
      → ((a : ℕ) → IsNode a → (next' a ≡ next a) × (value' a ≡ value a))
      → (a : ℕ) (vs : List ℕ) → IsNode a
      → Chain next value a vs
      → Chain next' value' a vs
  unfolding Chain
  Chain-kept next' value' same a [] here c = (same a here).0 ∙ c
  Chain-kept next' value' same a (v ∷ vs) here (more, carried, c) =
      let e : next' a ≡ next a = (same a here).0 in
      rw e (
        more,
        (same (next a) (onward a more)).1 ∙ carried,
        Chain-kept next' value' same (next a) vs (onward a more) c,
      )

-- A node linked after the last one of a chain, `end`, carries its data to the end of the list.
module _ (next value : ℕ → ℕ) (IsNode : ℕ → Type 0)
    (onward : (a : ℕ) → next a ≢ 0 → IsNode (next a)) (end n : ℕ) where
  pub Chain-link :
      ((a : ℕ) → IsNode a → next a ≡ 0 → a ≡ end)
      → next end ≡ 0
      → next n ≡ 0
      → n ≢ 0
      → n ≢ end
      → (a : ℕ) (vs : List ℕ) → IsNode a
      → Chain next value a vs
      → Chain (update next end n) value a (vs ++ value n ∷ [])
  unfolding Chain
  Chain-link last stops alone real other a [] here c =
      rw (last a here c) (rw (==_self end) (real, refl, ground (arith)))
  Chain-link last stops alone real other a (v ∷ vs) here (more, carried, c) =
      let apart : (end == a) ≡ false = ground (arith, stops) in
      rw apart (more, carried, Chain-link last stops alone real other (next a) vs (onward a more) c)

-- The first node of a chain that is not empty.
pub Chain-pop :
    (next value : ℕ → ℕ) (a : ℕ) (vs : List ℕ)
    → next a ≢ 0
    → Chain next value a vs
    → (rest : List ℕ) × (take_front (value (next a)) vs ≡ some rest)
      × Chain next value (next a) rest
unfolding Chain
Chain-pop next value a [] more c = absurd (more c)
Chain-pop next value a (v ∷ vs) more (_, carried, c) = (vs, ground (arith, carried), c)
