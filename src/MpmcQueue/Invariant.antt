-- ===== src/MpmcQueue/Invariant.antt =====
-- mpmc_queue.hpp: what holds of the queue between any two steps. The nodes that were ever linked
-- stand in one order, from the first dummy on: `rank` is a node's place in it, from 1, and 0 for a
-- node that is not linked; `len` is the number of linked nodes.
use tiny_reactor.Base.{
  ℕ, suc, true, ◌≡◌, ◌≢◌, ◌≤◌, ◌<◌, ◌==◌, if◌then◌else◌, arith, ◌∙◌, Option, none, some, List, [],
  ◌∷◌,
}
use tiny_reactor.MpmcQueue.{
  MpmcQueue, Op, enqueued, dequeued, Pc, rests, loads_tail, loads_next, links, swings,
  rechecks_tail, helps, loads_head, returns_false, protects_head, rechecks_head, reads_tail,
  reads_next, protects_next, rechecks_next, swings_for, pops, reads_data, releases_holders, retires,
}

pub record Ranked (rank : ℕ → ℕ) (len : ℕ) (q : MpmcQueue) : Type 0 where
  pub ordered : (a : ℕ) → q.next a ≢ 0 → (rank a ≢ 0) × (rank (q.next a) ≡ suc (rank a))
  pub linked : (a : ℕ) → rank a ≢ 0 → rank a < len → q.next a ≢ 0
  pub bounded : (a : ℕ) → rank a ≤ len
  pub known : (a : ℕ) → rank a ≢ 0 → (a ≢ 0) × (q.given a ≡ true)
  pub unique : (a b : ℕ) → rank a ≢ 0 → rank a ≡ rank b → a ≡ b
  pub places : (rank q.head ≢ 0) × (rank q.head ≤ rank q.tail) × (len ≤ suc (rank q.tail))

module _ {rank : ℕ → ℕ} {len : ℕ} (q : MpmcQueue) (r : Ranked rank len q) where
  open r use {ordered, linked, bounded, places}

  -- `tail` lags by one node at most.
  pub last_node : (nx : ℕ) → q.next q.tail ≡ nx → nx ≢ 0 → q.next nx ≡ 0
  last_node nx e h = ground (arith, ordered q.tail, ordered nx, bounded (q.next nx))

  -- A node up to `head` is the last one only if it is `head`.
  pub last_head : (ch : ℕ) → rank ch ≢ 0 → rank ch ≤ rank q.head → q.next ch ≡ 0 → q.next q.head ≡ 0
  last_head ch old le null = ground (arith, linked ch, ordered q.head, bounded (q.next q.head))

-- The node that a thread has allocated and not linked yet, or 0.
unfoldable pub own : Pc → ℕ
own (loads_tail n) = n
own (loads_next n ct) = n
own (rechecks_tail n ct nx) = n
own (links n ct) = n
own (helps n ct nx) = n
own _ = 0

-- The node that a thread has taken out and not retired yet, or 0.
unfoldable pub out : Pc → ℕ
out (reads_data ch nx) = ch
out (releases_holders ch v) = ch
out (retires ch v) = ch
out _ = 0

-- What the last `dequeue` of `t` took.
unfoldable pub last_taken : ℕ → List Op → Option ℕ
last_taken t [] = none
last_taken t (enqueued u v ∷ os) = last_taken t os
last_taken t (dequeued u v ∷ os) = let rest = last_taken t os in if u == t then some v else rest

module _ (rank : ℕ → ℕ) (q : MpmcQueue) where
  abbrev pub Own : ℕ → Type 0
  Own n = (n ≢ 0) × (q.given n ≡ true) × (rank n ≡ 0)

  abbrev pub Behind : (a b : ℕ) → Type 0
  Behind a b = (rank a ≢ 0) × (rank a ≤ rank b)

  -- A `next` that was read and not null stays.
  abbrev pub Follows : (nx a : ℕ) → Type 0
  Follows nx a = nx ≢ 0 → q.next a ≡ nx

  -- The node that a thread took out and is to retire.
  abbrev pub Out : ℕ → Type 0
  Out a = (rank a ≢ 0) × (rank a < rank q.head)

  -- What a thread knows where it stands.
  unfoldable pub Tied : ℕ → Pc → Type 0
  unfolding last_taken
  Tied t (rests none) = Unit
  Tied t (rests (some v)) = last_taken t q.history ≡ some v
  Tied t (loads_tail n) = Own n
  Tied t (loads_next n ct) = Own n × Behind ct q.tail
  Tied t (rechecks_tail n ct nx) = Own n × Behind ct q.tail × Follows nx ct
  Tied t (links n ct) = Own n × Behind ct q.tail
  Tied t (swings n ct) = (n ≢ 0) × (q.next ct ≡ n)
  Tied t (helps n ct nx) = Own n × (nx ≢ 0) × (q.next ct ≡ nx)
  Tied t loads_head = Unit
  Tied t returns_false = Unit
  Tied t (protects_head ch) = Behind ch q.head
  Tied t (rechecks_head ch) = Behind ch q.head
  Tied t (reads_tail ch) = Behind ch q.head
  Tied t (reads_next ch ct) = Behind ch q.head × Behind ch ct × Behind ct q.tail
  Tied t (protects_next ch ct nx) =
      Behind ch q.head × Behind ch ct × Behind ct q.tail × Follows nx ch
  Tied t (rechecks_next ch ct nx) =
      Behind ch q.head × Behind ch ct × Behind ct q.tail × Follows nx ch
  Tied t (swings_for ch ct nx) = (nx ≢ 0) × (q.next ct ≡ nx)
  Tied t (pops ch nx) = Behind ch q.head × (rank ch < rank q.tail) × (nx ≢ 0) × (q.next ch ≡ nx)
  Tied t (reads_data ch nx) = Out ch × (rank nx ≢ 0) × (last_taken t q.history ≡ some (q.value nx))
  Tied t (releases_holders ch v) = Out ch × (last_taken t q.history ≡ some v)
  Tied t (retires ch v) = Out ch × (last_taken t q.history ≡ some v)

pub record Valid (rank : ℕ → ℕ) (len : ℕ) (q : MpmcQueue) : Type 0 where
  pub ranked : Ranked rank len q
  pub tied : (t : ℕ) → Tied rank q t (q.threads t)
  pub apart : (t u : ℕ) → t ≢ u → own (q.threads t) ≢ 0 → own (q.threads t) ≢ own (q.threads u)

-- From `q` to `q'` the order of the nodes only grows.
pub record Grows (rank rank' : ℕ → ℕ) (q q' : MpmcQueue) : Type 0 where
  pub next_kept : (a : ℕ) → q.next a ≢ 0 → q'.next a ≡ q.next a
  pub rank_kept : (a : ℕ) → rank a ≢ 0 → rank' a ≡ rank a
  pub value_kept : (a : ℕ) → q.given a ≡ true → q'.value a ≡ q.value a
  pub head_up : rank q.head ≤ rank' q'.head
  pub tail_up : rank q.tail ≤ rank' q'.tail
  pub more : (a : ℕ) → q.given a ≡ true → q'.given a ≡ true

module _ {rank rank' : ℕ → ℕ} {q q' : MpmcQueue} (g : Grows rank rank' q q') (t : ℕ) where
  open g use {next_kept, rank_kept, value_kept, head_up, tail_up, more}

  -- What the thread `t` knows stays, when the other threads go on.
  pub Tied-kept :
      (pc : Pc)
      → (own pc ≢ 0 → rank' (own pc) ≡ rank (own pc))
      → last_taken t q'.history ≡ last_taken t q.history
      → ((a : ℕ) → rank a ≢ 0 → q.given a ≡ true)
      → Tied rank q t pc
      → Tied rank' q' t pc
  unfolding Tied own last_taken
  Tied-kept (rests none) f l k h = tt
  Tied-kept (rests (some v)) f l k h = l ∙ h
  Tied-kept loads_head f l k h = tt
  Tied-kept returns_false f l k h = tt
  Tied-kept (loads_tail n) f l k h = ground (arith, more n)
  Tied-kept (loads_next n ct) f l k h = ground (arith, more n, rank_kept ct)
  Tied-kept (rechecks_tail n ct nx) f l k h = ground (arith, more n, rank_kept ct, next_kept ct)
  Tied-kept (links n ct) f l k h = ground (arith, more n, rank_kept ct)
  Tied-kept (swings n ct) f l k h = ground (arith, next_kept ct)
  Tied-kept (helps n ct nx) f l k h = ground (arith, more n, next_kept ct)
  Tied-kept (protects_head ch) f l k h = ground (arith, rank_kept ch)
  Tied-kept (rechecks_head ch) f l k h = ground (arith, rank_kept ch)
  Tied-kept (reads_tail ch) f l k h = ground (arith, rank_kept ch)
  Tied-kept (reads_next ch ct) f l k h = ground (arith, rank_kept ch, rank_kept ct)
  Tied-kept (protects_next ch ct nx) f l k h =
      ground (arith, rank_kept ch, rank_kept ct, next_kept ch)
  Tied-kept (rechecks_next ch ct nx) f l k h =
      ground (arith, rank_kept ch, rank_kept ct, next_kept ch)
  Tied-kept (swings_for ch ct nx) f l k h = ground (arith, next_kept ct)
  Tied-kept (pops ch nx) f l k h = ground (arith, rank_kept ch, next_kept ch)
  Tied-kept (reads_data ch nx) f l k h =
      ground (arith, rank_kept ch, rank_kept nx, value_kept nx, k nx)
  Tied-kept (releases_holders ch v) f l k h = ground (arith, rank_kept ch)
  Tied-kept (retires ch v) f l k h = ground (arith, rank_kept ch)
