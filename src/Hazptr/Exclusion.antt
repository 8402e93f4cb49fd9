-- ===== src/Hazptr/Exclusion.antt =====
-- hazard_pointer.hpp: who owns which slot across `acquire` and `release`.
use tiny_reactor.Base.{
  ℕ, ◌<◌, ◌≡◌, ◌≢◌, refl, sym, ◌∙◌, inl, inr, Option-cases, Bool-cases, some, All, ◌==◌, arith,
  ==_self, List, [], ◌∷◌,
}
use tiny_reactor.Hazptr.{
  HazPtrDomain, HazardPointer, done, take_free, new_slot, acquire, release, find_slot, set_hazard,
}
use tiny_reactor.Hazptr.Slots.{
  owner_of, hazard_of, owner_of-lt, hazard_of-lt, take_free-Taken, take_free_none, acquire_new,
  acquire_reuse, released, owner_of-set_owner, owner_of-set_hazard, hazard_of-set_owner,
  hazard_of-set_hazard_self, hazard_of-set_hazard_ne,
}
use tiny_reactor.Hazptr.Protection.{IsQuiet}

-- What a call of `acquire` by thread `t` hands out.
pub record Acquired (t : ℕ) (d e : HazPtrDomain) (a : ℕ) : Type 0 where
  pub not_null : 0 < a
  pub was_free : owner_of a d.head ≡ 0
  pub owned : owner_of a e.head ≡ t
  pub others : (b : ℕ) → b ≢ a → owner_of b e.head ≡ owner_of b d.head
  pub hazards : (b : ℕ) → hazard_of b e.head ≡ hazard_of b d.head
  pub thrifty : e.next_addr ≢ d.next_addr → All (λ s. 0 < s.owner) d.head

-- `acquire` hands out a slot that no thread owned, makes the caller its owner, and changes neither
-- the owner of another slot nor what any slot protects; it allocates only if every slot is owned.
pub acquire-exclusive :
    (t : ℕ) (d : HazPtrDomain) → IsQuiet d → Acquired t d (acquire t d).0 (acquire t d).1
unfolding new_slot owner_of hazard_of
acquire-exclusive t d q = elim (Option-cases (take_free t d.head)) [
  | inl e ↦ rw (acquire_new t d e) (record {
    not_null = q.heap;
    was_free = ground (arith, owner_of-lt d.next_addr d.next_addr d.head q.slots);
    owned = ground arith;
    others = λ b h. ground arith;
    hazards = λ b. ground (arith, hazard_of-lt b d.next_addr d.head q.slots);
    thrifty = λ k. take_free_none t d.head e;
  })
  | inr ((ss, a), e) ↦
      let k = take_free-Taken t d.next_addr d.head ss a q.slots e in
      rw (acquire_reuse t d e) (record {
        not_null = k.in_use;
        was_free = k.was_free;
        owned = k.owned;
        others = k.others;
        hazards = k.hazards;
        thrifty = λ n. absurd (n refl);
      })
]

owner_of-find :
    (a : ℕ) (ss : List HazardPointer)
    → 0 < owner_of a ss
    → (s : HazardPointer) × (find_slot a ss ≡ some s) × (s.owner ≡ owner_of a ss)
unfolding owner_of find_slot
owner_of-find a [] h = absurd (omega arith)
owner_of-find a (s ∷ ss) h = elim (Bool-cases (s.addr == a)) [
  | inl here ↦ (s, ground arith, ground arith)
  | inr there ↦
      let (r, found, same) = owner_of-find a ss (ground arith) in (r, ground arith, ground arith)
]

-- A thread that owns a slot can release it.
pub release-done :
    (t a : ℕ) (d : HazPtrDomain)
    → 0 < a
    → 0 < t
    → owner_of a d.head ≡ t
    → release t a d ≡ done (released a d)
unfolding release
release-done t a d ha ht own =
    let (s, found, same) = owner_of-find a d.head (omega arith) in ground arith

-- The slot after `release`: no owner, nothing protected, and the other slots as they were.
pub released-free :
    (a : ℕ) (d : HazPtrDomain)
    → 0 < owner_of a d.head
    → (owner_of a (released a d).head ≡ 0) × (hazard_of a (released a d).head ≡ 0)
released-free a d h = (
  owner_of-set_owner a a 0 (set_hazard a 0 d.head) (rw owner_of-set_hazard h) ∙ rw ==_self,
  hazard_of-set_owner a a 0 (set_hazard a 0 d.head) ∙ hazard_of-set_hazard_self a 0 d.head h,
)

pub released-others :
    (a b : ℕ) (d : HazPtrDomain)
    → 0 < owner_of a d.head
    → b ≢ a
    → (owner_of b (released a d).head ≡ owner_of b d.head)
      × (hazard_of b (released a d).head ≡ hazard_of b d.head)
released-others a b d h ne = (
  ground (
    arith,
    owner_of-set_owner b a 0 (set_hazard a 0 d.head),
    owner_of-set_hazard a a 0 d.head,
    owner_of-set_hazard b a 0 d.head,
  ),
  hazard_of-set_owner b a 0 (set_hazard a 0 d.head)
      ∙ hazard_of-set_hazard_ne b a 0 d.head (λ e. ne (sym e)),
)
