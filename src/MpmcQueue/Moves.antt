-- ===== src/MpmcQueue/Moves.antt =====
-- mpmc_queue.hpp: what one step of a thread changes, in one place.
use tiny_reactor.Base.{
  ℕ, ◌≡◌, ◌≢◌, ◌≤◌, ◌==◌, if◌then◌else◌, refl, sym, ◌∙◌, Bool, true, false, arith, ◌⊎◌, inl, inr,
  List, ◌∷◌, update, Bool-cases,
}
use tiny_reactor.MpmcQueue.{MpmcQueue, Check, Pc, goto, exchanges, swing_tail}
use tiny_reactor.MpmcQueue.Chains.{View}
use tiny_reactor.MpmcQueue.Invariant.{Ranked, own, out, last_taken, Tied, Grows}

-- Threads that hold different nodes still do, when one thread comes to hold another node.
pub apart_update :
    (holds : Pc → ℕ) (threads : ℕ → Pc) (t : ℕ) (place : Pc)
    → ((u : ℕ) → t ≢ u → holds place ≢ 0 → holds place ≢ holds (threads u))
    → ((a b : ℕ) → a ≢ b → holds (threads a) ≢ 0 → holds (threads a) ≢ holds (threads b))
    → (a b : ℕ) → a ≢ b
    → holds (update threads t place a) ≢ 0
    → holds (update threads t place a) ≢ holds (update threads t place b)
apart_update holds threads t place mine others a b ne = elim (Bool-cases (t == a)) [
  | inl same ↦
      let apart : (t == b) ≡ false = ground arith in rw (same, apart) (mine b (ground arith))
  | inr other ↦ elim (Bool-cases (t == b)) [
    | inl same ↦ rw (other, same) (λ h z. mine a (ground arith) (λ y. h (z ∙ y)) (sym z))
    | inr apart ↦ rw (other, apart) (others a b ne)
  ]
]

-- Which nodes a thread holds at `place`, after it held those of `old`.
abbrev pub Holds : (old place : Pc) → Type 0
Holds old place =
    ((own place ≡ 0) ⊎ (own place ≡ own old)) × ((out place ≡ 0) ⊎ (out place ≡ out old))

-- The node that a thread takes out is `head`, and it retires the node that it took out.
abbrev pub Retires : (old place : Pc) → (q e : MpmcQueue) → Type 0
Retires old place q e =
    ((e.retired ≡ q.retired) × ((out place ≡ 0) ⊎ ((out place ≡ out old) ⊎ (out place ≡ q.head))))
    ⊎ ((e.retired ≡ out old ∷ q.retired) × (out place ≡ 0) × (out old ≢ 0))

-- The thread `t` goes from `old` to `place` while the queue goes from `q` to `e`.
pub record Moved (rank : ℕ → ℕ) (len t : ℕ) (old : Pc) (q e : MpmcQueue) : Type 0 where
  pub rank' : ℕ → ℕ
  pub len' : ℕ
  pub place : Pc
  pub placed : (u : ℕ) → e.threads u ≡ update q.threads t place u
  pub ranked : Ranked rank' len' e
  pub grows : Grows rank rank' q e
  pub tied : Tied rank' e t place
  pub others : (n : ℕ) → own old ≢ n → rank' n ≡ rank n
  pub owns : (own place ≡ 0) ⊎ ((own place ≡ own old) ⊎ (q.given (own place) ≡ false))
  pub taken : (u : ℕ) → t ≢ u → last_taken u e.history ≡ last_taken u q.history
  pub retires_out : Retires old place q e
  pub viewed : View q → View e

-- A property of both branches, each under its test.
pub either :
    (P : Pc → Type 0) (b : Bool) {x y : Pc}
    → (b ≡ true → P x)
    → (b ≡ false → P y)
    → P (if b then x else y)
either P true f g = f refl
either P false f g = g refl

module _ {rank : ℕ → ℕ} {len : ℕ} (q : MpmcQueue) (r : Ranked rank len q) where
  open r use {ordered}

  -- `tail` moves from a node to the next one, or stays.
  pub tail_swings :
      (fails : Bool) (ct nx : ℕ)
      → nx ≢ 0
      → q.next ct ≡ nx
      → rank q.tail ≤ rank (if exchanges fails q.tail ct then nx else q.tail)
  tail_swings true ct nx real e = omega arith
  tail_swings false ct nx real e = ground (arith, ordered ct)

module _ {rank : ℕ → ℕ} {len t : ℕ} (q : MpmcQueue) (r : Ranked rank len q) where
  open r use {ordered, linked, bounded, known, unique, places}

  -- Only the place of the thread, `tail`, the hazard pointers, `retired` and what
  -- the domain does may change.
  pub becomes :
      {old : Pc} (place : Pc) (tail : ℕ) (hp_head hp_next : ℕ → ℕ) (retired : List ℕ)
      (freed : ℕ → Bool) (check : Check) (threads : ℕ → Pc)
      → let e : MpmcQueue = record q {
        tail = tail;
        hp_head = hp_head;
        hp_next = hp_next;
        retired = retired;
        freed = freed;
        check = check;
        threads = threads;
      } in
        ((u : ℕ) → threads u ≡ update q.threads t place u)
        → rank q.tail ≤ rank tail
        → (own place ≡ 0) ⊎ (own place ≡ own old)
        → Retires old place q e
        → Tied rank e t place
        → Moved rank len t old q e
  unfolding View
  becomes place tail hp_head hp_next retired freed check threads p up o x k = record {
    rank' = rank;
    len' = len;
    place = place;
    placed = p;
    ranked = record {
      ordered = ordered;
      linked = linked;
      bounded = bounded;
      known = known;
      unique = unique;
      places = omega (arith, places);
    };
    grows = record {
      next_kept = λ a _. refl;
      rank_kept = λ a _. refl;
      value_kept = λ a _. refl;
      head_up = omega arith;
      tail_up = up;
      more = λ a h. h;
    };
    tied = k;
    others = λ n _. refl;
    owns = elim o [ inl a ↦ inl a | inr b ↦ inr (inl b) ];
    taken = λ u _. refl;
    retires_out = x;
    viewed = λ v. v;
  }

  pub goes :
      {old : Pc} (place : Pc) (tail : ℕ) (hp_head hp_next : ℕ → ℕ)
      → let e : MpmcQueue = record q { tail = tail; hp_head = hp_head; hp_next = hp_next } in
        rank q.tail ≤ rank tail
        → Holds old place
        → Tied rank e t place
        → Moved rank len t old q (goto t place e)
  unfolding Tied
  goes place tail hp_head hp_next up o k =
      becomes place tail hp_head hp_next q.retired q.freed q.check _ (λ u. refl) up o.0
        (inl (refl, elim o.1 [ inl a ↦ inl a | inr b ↦ inr (inl b) ])) k

  -- A thread goes on, and changes nothing else.
  pub moves_on :
      {old : Pc} (place : Pc)
      → Holds old place
      → Tied rank (goto t place q) t place
      → Moved rank len t old q (goto t place q)
  unfolding Tied
  moves_on place o k = goes place q.tail q.hp_head q.hp_next (omega arith) o k

  -- A thread that is in no call does not move.
  pub stays : (old : Pc) → q.threads t ≡ old → Tied rank q t old → Moved rank len t old q q
  stays old e k =
      becomes old q.tail q.hp_head q.hp_next q.retired q.freed q.check q.threads
        (λ u. ground (arith, e)) (omega arith) (inr refl) (inl (refl, inr (inl refl))) k

  pub swings_tail :
      (old place : Pc) (fails : Bool) (ct nx : ℕ)
      → nx ≢ 0
      → q.next ct ≡ nx
      → Holds old place
      → Tied rank (goto t place (swing_tail fails ct nx q)) t place
      → Moved rank len t old q (goto t place (swing_tail fails ct nx q))
  unfolding Tied
  swings_tail old place fails ct nx real e o k =
      goes place _ q.hp_head q.hp_next (tail_swings q r fails ct nx real e) o k
