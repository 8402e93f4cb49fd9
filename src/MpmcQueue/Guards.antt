-- ===== src/MpmcQueue/Guards.antt =====
-- mpmc_queue.hpp with hazard_pointer.hpp: what the hazard pointers of a thread protect at each step.
use tiny_reactor.Base.{
  ℕ, ◌≡◌, ◌≢◌, ◌≤◌, ◌<◌, ◌==◌, refl, sym, subst, ◌∙◌, Bool, true, false, ◌&&◌, ◌||◌, arith, inl,
  inr, ltb, leb, Bool-cases,
}
use tiny_reactor.MpmcQueue.{
  MpmcQueue, Check, no_check, at_next, at_head, Pc, rechecks_head, reads_tail, reads_next,
  rechecks_next, pops, reads_data,
}
use tiny_reactor.MpmcQueue.Reclaim.{times}

-- Whether `a` is being checked and the first slot of the thread `t` was read.
unfoldable pub passed_head : Check → (t a : ℕ) → Bool
passed_head no_check t a = false
passed_head (at_next c k) t a = c == a && leb k t
passed_head (at_head c k) t a = c == a && ltb k t

-- The same of the second slot, which is read before the first.
unfoldable pub passed_next : Check → (t a : ℕ) → Bool
passed_next no_check t a = false
passed_next (at_next c k) t a = c == a && leb k t
passed_next (at_head c k) t a = c == a && leb k t

unfoldable pub is_checked : Check → ℕ → Bool
is_checked no_check a = false
is_checked (at_next c k) a = c == a
is_checked (at_head c k) a = c == a

-- Whether `a` was found unprotected or can be, though a slot of the thread `t` holds it.
abbrev pub lost_head : MpmcQueue → (t a : ℕ) → Bool
lost_head q t a = q.freed a || passed_head q.check t a

abbrev pub lost_next : MpmcQueue → (t a : ℕ) → Bool
lost_next q t a = q.freed a || passed_next q.check t a

-- Whether `a` was found unprotected or is being checked.
abbrev pub is_chosen : MpmcQueue → ℕ → Bool
is_chosen q a = q.freed a || is_checked q.check a

-- What the hazard pointers of a thread hold where it stands.
unfoldable pub Guard : MpmcQueue → ℕ → Pc → Type 0
Guard q t (rechecks_head ch) = q.hp_head t ≡ ch
Guard q t (reads_tail ch) = (q.hp_head t ≡ ch) × (lost_head q t ch ≡ false)
Guard q t (reads_next ch ct) = (q.hp_head t ≡ ch) × (lost_head q t ch ≡ false)
Guard q t (rechecks_next ch ct nx) = q.hp_next t ≡ nx
Guard q t (pops ch nx) = (q.hp_next t ≡ nx) × (lost_next q t nx ≡ false)
Guard q t (reads_data ch nx) = (q.hp_next t ≡ nx) × (lost_next q t nx ≡ false)
Guard q t _ = Unit

-- The first `n` threads are guarded, and only retired nodes are checked.
pub record Guarded (n : ℕ) (q : MpmcQueue) : Type 0 where
  pub guards : (t : ℕ) → t < n → Guard q t (q.threads t)
  pub retired_first : (a : ℕ) → is_chosen q a ≡ true → times a q.retired ≢ 0

-- What a step of the thread `t` leaves to the others.
pub record Aside (t : ℕ) (q e : MpmcQueue) : Type 0 where
  pub threads_kept : (u : ℕ) → t ≢ u → e.threads u ≡ q.threads u
  pub hp_head_kept : (u : ℕ) → t ≢ u → e.hp_head u ≡ q.hp_head u
  pub hp_next_kept : (u : ℕ) → t ≢ u → e.hp_next u ≡ q.hp_next u
  pub freed_kept : e.freed ≡ q.freed
  pub check_kept : e.check ≡ q.check
  pub retired_kept : (a : ℕ) → times a q.retired ≤ times a e.retired

-- A guard depends on the thread's hazard pointers and on `freed`.
pub Guard-kept :
    (q e : MpmcQueue) (t : ℕ) (pc : Pc)
    → e.hp_head t ≡ q.hp_head t
    → e.hp_next t ≡ q.hp_next t
    → ((a : ℕ) → q.hp_head t ≡ a → lost_head q t a ≡ false → lost_head e t a ≡ false)
    → ((a : ℕ) → q.hp_next t ≡ a → lost_next q t a ≡ false → lost_next e t a ≡ false)
    → Guard q t pc
    → Guard e t pc
unfolding Guard
Guard-kept q e t (rechecks_head ch) h n f g k = h ∙ k
Guard-kept q e t (reads_tail ch) h n f g (k, l) = (h ∙ k, f ch k l)
Guard-kept q e t (reads_next ch ct) h n f g (k, l) = (h ∙ k, f ch k l)
Guard-kept q e t (rechecks_next ch ct nx) h n f g k = n ∙ k
Guard-kept q e t (pops ch nx) h n f g (k, l) = (n ∙ k, g nx k l)
Guard-kept q e t (reads_data ch nx) h n f g (k, l) = (n ∙ k, g nx k l)
Guard-kept q e t _ h n f g k = tt

module _ (q e : MpmcQueue) (f : e.freed ≡ q.freed) (c : e.check ≡ q.check) where
  lost_head_kept : (t a : ℕ) → lost_head e t a ≡ lost_head q t a
  lost_head_kept t a = rw (f, c) refl

  lost_next_kept : (t a : ℕ) → lost_next e t a ≡ lost_next q t a
  lost_next_kept t a = rw (f, c) refl

  is_chosen_kept : (a : ℕ) → is_chosen e a ≡ is_chosen q a
  is_chosen_kept a = rw (f, c) refl

-- A step of the thread `t` that guards what it reads next leaves the others guarded.
pub Aside-Guarded :
    {n : ℕ} (t : ℕ) (q e : MpmcQueue)
    → Guarded n q
    → Aside t q e
    → (t < n → Guard e t (e.threads t))
    → Guarded n e
Aside-Guarded t q e g s own = record {
  guards = λ u lt. elim (Bool-cases (t == u)) [
    | inl same ↦ subst (λ x. Guard e x (e.threads x)) (ground arith) (own (ground arith))
    | inr other ↦
        let apart : t ≢ u = ground arith in
        subst (Guard e u) (sym (s.threads_kept u apart)) (
          Guard-kept q e u (q.threads u) (s.hp_head_kept u apart) (s.hp_next_kept u apart)
            (λ a k l. lost_head_kept q e s.freed_kept s.check_kept u a ∙ l)
            (λ a k l. lost_next_kept q e s.freed_kept s.check_kept u a ∙ l) (g.guards u lt))
  ];
  retired_first = λ a gone z.
      g.retired_first a (sym (is_chosen_kept q e s.freed_kept s.check_kept a) ∙ gone)
        (ground (arith, s.retired_kept a));
}
