-- ===== src/MpmcQueue/Undeleted.antt =====
-- mpmc_queue.hpp with hazard_pointer.hpp: as long as the domain finishes no check, no node is deleted,
-- and so `new` gives no address of a deleted node.
use tiny_reactor.Base.{
  ℕ, ◌≡◌, refl, ap, ◌∙◌, ◌&&◌, true, false, not, List, [], ◌∷◌, any, All, Bool-cases, inl, inr,
  ◌==◌,
}
use tiny_reactor.MpmcQueue.{
  MpmcQueue, Check, no_check, Event, enqueues, dequeues, steps, checks, looks, start_check, step,
  reuses, none_reused,
}
use tiny_reactor.MpmcQueue.Guarding.{advance-Aside, enqueue-Aside, dequeue-Aside}

-- The domain reads no slot.
abbrev pub IsUnchecked : Event → Type 0
IsUnchecked looks = ⊥
IsUnchecked _ = Unit

abbrev pub NoneDeleted : MpmcQueue → Type 0
NoneDeleted q = (a : ℕ) → q.freed a ≡ false

start_check-freed : (n a : ℕ) (c : Check) (q : MpmcQueue) → (start_check n a c q).freed ≡ q.freed
unfolding start_check
start_check-freed n a no_check q =
    elim (Bool-cases (any (λ x. x == a) q.retired && not (q.freed a))) [
      | inl found ↦ rw found refl
      | inr other ↦ rw other refl
    ]
start_check-freed n a c q = refl

step-freed :
    (e : Event) (q : MpmcQueue) → IsUnchecked e → NoneDeleted q → (step e q).freed ≡ q.freed
unfolding step
step-freed (enqueues t v a) q u clean = (enqueue-Aside t v a (q.threads t) q (clean a)).freed_kept
step-freed (dequeues t) q u clean = (dequeue-Aside t (q.threads t) q).freed_kept
step-freed (steps fails t) q u clean = (advance-Aside fails t (q.threads t) q).freed_kept
step-freed (checks n a) q u clean = start_check-freed n a q.check q
step-freed looks q u clean = absurd u

reuses-NoneDeleted : (e : Event) (q : MpmcQueue) → NoneDeleted q → reuses e q ≡ false
unfolding reuses
reuses-NoneDeleted (enqueues t v a) q clean = clean a
reuses-NoneDeleted e q clean = refl

-- Whatever the threads do, `new` gives no address of a deleted node while the domain reads no slot.
pub none_reused-IsUnchecked :
    (es : List Event) (q : MpmcQueue) → All IsUnchecked es → NoneDeleted q → none_reused es q ≡ true
unfolding none_reused
none_reused-IsUnchecked [] q u clean = refl
none_reused-IsUnchecked (e ∷ es) q (u, us) clean = rw (reuses-NoneDeleted e q clean) (
    none_reused-IsUnchecked es (step e q) us
      (λ a. ap (λ f. f a) (step-freed e q u clean) ∙ clean a))
