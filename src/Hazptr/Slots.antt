-- ===== src/Hazptr/Slots.antt =====
-- hazard_pointer.hpp: laws of the walks over the slots, for the operations that use them.
use tiny_reactor.Base.{
  ℕ, ◌≤◌, ◌<◌, ◌≡◌, ◌≢◌, refl, inl, inr, none, some, List, [], ◌∷◌, arith, ◌⊎◌, All, Bool-cases,
  ◌==◌, if◌then◌else◌, Option-cases,
}
use tiny_reactor.Hazptr.{
  HazardPointer, HazPtrDomain, done, new_slot, acquire, release, take_free, find_slot, set_hazard,
  set_owner,
}

-- The addresses of the slots are not null, differ, and lie below `n`.
abbrev pub Below : ℕ → List HazardPointer → Type 0
Below n [] = Unit {0}
Below n (s ∷ ss) = (s.addr < n) × (0 < s.addr) × Below s.addr ss

-- The pointer that the slot at `a` protects, and its owner; 0 if there is no such slot.
unfoldable pub hazard_of : ℕ → List HazardPointer → ℕ
hazard_of a [] = 0
hazard_of a (s ∷ ss) = if s.addr == a then s.hazard_ptr else hazard_of a ss

unfoldable pub owner_of : ℕ → List HazardPointer → ℕ
owner_of a [] = 0
owner_of a (s ∷ ss) = if s.addr == a then s.owner else owner_of a ss

pub Below-mono : {m n : ℕ} (ss : List HazardPointer) → m ≤ n → Below m ss → Below n ss
Below-mono [] h b = tt
Below-mono (s ∷ ss) h b = (omega arith, b.1, b.2)

pub set_hazard-Below :
    (a p n : ℕ) (ss : List HazardPointer) → Below n ss → Below n (set_hazard a p ss)
unfolding set_hazard
set_hazard-Below a p n [] b = tt
set_hazard-Below a p n (s ∷ ss) b = ground (arith, set_hazard-Below a p s.addr ss b.2)

pub set_owner-Below :
    (a t n : ℕ) (ss : List HazardPointer) → Below n ss → Below n (set_owner a t ss)
unfolding set_owner
set_owner-Below a t n [] b = tt
set_owner-Below a t n (s ∷ ss) b = ground (arith, set_owner-Below a t s.addr ss b.2)

-- A slot that protects something, or is owned, has an address in use.
pub hazard_of-lt : (a n : ℕ) (ss : List HazardPointer) → Below n ss → 0 < hazard_of a ss → a < n
unfolding hazard_of
hazard_of-lt a n [] b h = absurd (omega arith)
hazard_of-lt a n (s ∷ ss) b h = ground (arith, hazard_of-lt a s.addr ss b.2)

pub owner_of-lt :
    (a n : ℕ) (ss : List HazardPointer) → Below n ss → 0 < owner_of a ss → (0 < a) × (a < n)
unfolding owner_of
owner_of-lt a n [] b h = absurd (omega arith)
owner_of-lt a n (s ∷ ss) b h = ground (arith, owner_of-lt a s.addr ss b.2)

pub hazard_of-set_hazard_self :
    (a p : ℕ) (ss : List HazardPointer) → 0 < owner_of a ss → hazard_of a (set_hazard a p ss) ≡ p
unfolding hazard_of set_hazard owner_of
hazard_of-set_hazard_self a p [] h = absurd (omega arith)
hazard_of-set_hazard_self a p (s ∷ ss) h = ground (arith, hazard_of-set_hazard_self a p ss)

pub hazard_of-set_hazard_ne :
    (a b p : ℕ) (ss : List HazardPointer) → b ≢ a → hazard_of a (set_hazard b p ss) ≡ hazard_of a ss
unfolding hazard_of set_hazard
hazard_of-set_hazard_ne a b p [] h = refl
hazard_of-set_hazard_ne a b p (s ∷ ss) h = ground (arith, hazard_of-set_hazard_ne a b p ss)

pub hazard_of-set_owner :
    (a b t : ℕ) (ss : List HazardPointer) → hazard_of a (set_owner b t ss) ≡ hazard_of a ss
unfolding hazard_of set_owner
hazard_of-set_owner a b t [] = refl
hazard_of-set_owner a b t (s ∷ ss) = ground (arith, hazard_of-set_owner a b t ss)

pub owner_of-set_hazard :
    (a b p : ℕ) (ss : List HazardPointer) → owner_of a (set_hazard b p ss) ≡ owner_of a ss
unfolding owner_of set_hazard
owner_of-set_hazard a b p [] = refl
owner_of-set_hazard a b p (s ∷ ss) = ground (arith, owner_of-set_hazard a b p ss)

pub owner_of-set_owner :
    (a b t : ℕ) (ss : List HazardPointer)
    → 0 < owner_of b ss
    → owner_of a (set_owner b t ss) ≡ (if b == a then t else owner_of a ss)
unfolding owner_of set_owner
owner_of-set_owner a b t [] h = absurd (omega arith)
owner_of-set_owner a b t (s ∷ ss) h = ground (arith, owner_of-set_owner a b t ss, other a b t ss)
  where
    other :
        (a b t : ℕ) (ss : List HazardPointer)
        → b ≢ a
        → owner_of a (set_owner b t ss) ≡ owner_of a ss
    other a b t [] h = refl
    other a b t (s ∷ ss) h = ground (arith, other a b t ss)

-- What the walk of `acquire` finds.
pub record Taken (t : ℕ) (ss ss' : List HazardPointer) (a : ℕ) : Type 0 where
  pub was_free : owner_of a ss ≡ 0
  pub in_use : 0 < a
  pub owned : owner_of a ss' ≡ t
  pub others : (b : ℕ) → b ≢ a → owner_of b ss' ≡ owner_of b ss
  pub hazards : (b : ℕ) → hazard_of b ss' ≡ hazard_of b ss
  pub below : (n : ℕ) → Below n ss → Below n ss'
  pub named : (n : ℕ) → Below n ss → a < n

module _ (t : ℕ) (s : HazardPointer) (ss : List HazardPointer) where
  Taken-here : 0 < s.addr → s.owner ≡ 0 → Taken t (s ∷ ss) (record s { owner = t } ∷ ss) s.addr
  unfolding owner_of hazard_of
  Taken-here pos free = record {
    was_free = ground arith;
    in_use = pos;
    owned = ground arith;
    others = λ b h. ground arith;
    hazards = λ b. ground arith;
    below = λ n b. b;
    named = λ n b. b.0;
  }

  Taken-there :
      (ss' : List HazardPointer) (a : ℕ)
      → Below s.addr ss
      → Taken t ss ss' a
      → Taken t (s ∷ ss) (s ∷ ss') a
  unfolding owner_of hazard_of
  Taken-there ss' a b k = record {
    was_free = ground (arith, k.named s.addr b);
    in_use = k.in_use;
    owned = ground (arith, k.named s.addr b);
    others = λ c h. ground (arith, k.others c);
    hazards = λ c. ground (arith, k.hazards c);
    below = λ n c. (c.0, c.1, k.below s.addr c.2);
    named = λ n c. omega (arith, k.named s.addr b);
  }

take_free_cases :
    (t : ℕ) (s : HazardPointer) (ss ss' : List HazardPointer) (a : ℕ)
    → take_free t (s ∷ ss) ≡ some (ss', a)
    → ((s.owner ≡ 0) × (ss' ≡ record s { owner = t } ∷ ss) × (a ≡ s.addr))
      ⊎ ((r : List HazardPointer) × (take_free t ss ≡ some (r, a)) × (ss' ≡ s ∷ r))
unfolding take_free
take_free_cases t s ss ss' a e = elim (Bool-cases (s.owner == 0)) [
  | inl free ↦ inl (ground arith, ground arith, ground arith)
  | inr busy ↦ elim (Option-cases (take_free t ss)) [
    | inl h ↦ absurd (ground arith)
    | inr ((r, c), h) ↦ inr (r, ground arith, ground arith)
  ]
]

pub take_free-Taken :
    (t n : ℕ) (ss ss' : List HazardPointer) (a : ℕ)
    → Below n ss
    → take_free t ss ≡ some (ss', a)
    → Taken t ss ss' a
unfolding take_free
take_free-Taken t n [] ss' a b e = cc
take_free-Taken t n (s ∷ ss) ss' a b e = elim (take_free_cases t s ss ss' a e) [
  | inl (free, q, p) ↦ rw (q, p) (Taken-here t s ss b.1 free)
  | inr (r, h, q) ↦ rw q (Taken-there t s ss r a b.2 (take_free-Taken t s.addr ss r a b.2 h))
]

-- The walk fails only where every slot has an owner.
pub take_free_none :
    (t : ℕ) (ss : List HazardPointer) → take_free t ss ≡ none → All (λ s. 0 < s.owner) ss
unfolding take_free
take_free_none t [] e = tt
take_free_none t (s ∷ ss) e = elim (Bool-cases (s.owner == 0)) [
  | inl free ↦ absurd (ground arith)
  | inr busy ↦ elim (Option-cases (take_free t ss)) [
    | inl h ↦ (ground arith, take_free_none t ss h)
    | inr (x, h) ↦ absurd (ground arith)
  ]
]

-- `acquire` allocates exactly where the walk fails.
pub acquire_new :
    (t : ℕ) (d : HazPtrDomain) → take_free t d.head ≡ none → acquire t d ≡ new_slot t d
unfolding acquire
acquire_new t d e = rw (e, acquire)

pub acquire_reuse :
    (t : ℕ) (d : HazPtrDomain) {ss : List HazardPointer} {a : ℕ}
    → take_free t d.head ≡ some (ss, a)
    → acquire t d ≡ (record d { head = ss }, a)
unfolding acquire
acquire_reuse t d e = rw (e, acquire)

find_slot-owner :
    (a : ℕ) (ss : List HazardPointer) (s : HazardPointer)
    → find_slot a ss ≡ some s
    → owner_of a ss ≡ s.owner
unfolding find_slot owner_of
find_slot-owner a [] s e = cc
find_slot-owner a (x ∷ ss) s e = ground (arith, find_slot-owner a ss s)

-- A slot as `release` leaves it.
abbrev pub released : ℕ → HazPtrDomain → HazPtrDomain
released a d = record d { head = set_owner a 0 (set_hazard a 0 d.head) }

-- A `release` that returns was of no slot, or of one that its thread owned.
pub release_inv :
    (t a : ℕ) (d e : HazPtrDomain)
    → release t a d ≡ done e
    → ((a ≡ 0) × (e ≡ d)) ⊎ ((0 < a) × (owner_of a d.head ≡ t) × (e ≡ released a d))
unfolding release
release_inv t a d e h = elim (Bool-cases (a == 0)) [
  | inl null ↦ inl (ground arith, ground arith)
  | inr some_slot ↦ elim (Option-cases (find_slot a d.head)) [
    | inl none_there ↦ absurd (ground arith)
    | inr (s, f) ↦ inr (ground arith, ground (arith, find_slot-owner a d.head s f), ground arith)
  ]
]
