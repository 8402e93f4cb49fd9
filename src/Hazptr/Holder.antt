-- ===== src/Hazptr/Holder.antt =====
-- hazard_pointer.hpp, `HazPtrHolder`: the owner of one slot, with its move operations. The domain
-- that `domain_` refers to is an argument, and a deleted copy is no operation.
use tiny_reactor.Base.{
  ℕ, ◌<◌, ◌≡◌, ◌≢◌, refl, sym, ◌∙◌, Bool, true, false, ◌==◌, if◌then◌else◌, arith, ℕ_discrete,
}
use tiny_reactor.Hazptr.{
  HazPtrDomain, Outcome, done, ◌>>=◌, acquire, release, set_hazard, is_protected,
}
use tiny_reactor.Hazptr.Slots.{
  owner_of, hazard_of, released, owner_of-set_hazard, hazard_of-set_owner,
  hazard_of-set_hazard_self, hazard_of-set_hazard_ne,
}
use tiny_reactor.Hazptr.Protection.{IsQuiet, is_protected_of_hazard}
use tiny_reactor.Hazptr.Exclusion.{
  Acquired, acquire-exclusive, release-done, released-free, released-others,
}

pub record HazPtrHolder : Type 0 where
  pub slot : ℕ

-- The constructor acquires a slot.
pub make_holder : ℕ → HazPtrDomain → HazPtrDomain × HazPtrHolder
make_holder t d = let (e, a) = acquire t d in (e, record { slot = a })

-- The move constructor: the new holder, and what is left of the source.
pub move_holder : HazPtrHolder → HazPtrHolder × HazPtrHolder
move_holder other = (record { slot = other.slot }, record { slot = 0 })

-- `protect` and `get`.
pub protect : ℕ → HazPtrHolder → HazPtrDomain → HazPtrDomain
protect p h d = if h.slot == 0 then d else record d { head = set_hazard h.slot p d.head }

pub get : HazPtrHolder → HazPtrDomain → ℕ
get h d = if h.slot == 0 then 0 else hazard_of h.slot d.head

-- `release`.
pub release_holder : ℕ → HazPtrHolder → HazPtrDomain → Outcome (HazPtrDomain × HazPtrHolder)
release_holder t h d =
    if h.slot == 0 then done (d, h) else release t h.slot d >>= λ e. done (e, record { slot = 0 })

-- The destructor: what is left of the domain.
pub destroy_holder : ℕ → HazPtrHolder → HazPtrDomain → Outcome HazPtrDomain
unfolding release_holder
destroy_holder t h d = release_holder t h d >>= λ r. done r.0

-- The move assignment: `same` says that the source is the target itself. The target and the source
-- are what it leaves.
pub move_assign :
    ℕ
    → Bool
    → HazPtrHolder
    → HazPtrHolder
    → HazPtrDomain
    → Outcome (HazPtrDomain × HazPtrHolder × HazPtrHolder)
unfolding release_holder
move_assign t same this other d =
    if same
    then done (d, this, other)
    else (release_holder t this d >>= λ r.
        done (r.0, record { slot = other.slot }, record { slot = 0 }))

-- After a move the target protects what the source protected, and the source protects nothing:
-- its destructor has no effect.
pub move_holder-get :
    (t : ℕ) (h : HazPtrHolder) (d : HazPtrDomain)
    → let (target, source) = move_holder h in
      (get target d ≡ get h d) × (get source d ≡ 0) × (destroy_holder t source d ≡ done d)
unfolding move_holder get destroy_holder
move_holder-get t h d = (refl, refl, refl)

-- An assignment between two holders of different slots of one thread frees the target's old slot,
-- which then has no owner and protects nothing. The target protects what the source protected, and
-- the source nothing.
pub move_assign-get :
    (t : ℕ) (this other : HazPtrHolder) (d : HazPtrDomain)
    → 0 < t
    → 0 < this.slot
    → this.slot ≢ other.slot
    → owner_of this.slot d.head ≡ t
    → (e : HazPtrDomain) × (target : HazPtrHolder) × (source : HazPtrHolder) × (move_assign t false
          this other d
        ≡ done (e, target, source))
      × (get target e ≡ get other d)
      × (get source e ≡ 0)
      × (owner_of this.slot e.head ≡ 0)
      × (hazard_of this.slot e.head ≡ 0)
unfolding move_assign get
move_assign-get t this other d pos held ne own = (
  released this.slot d,
  record { slot = other.slot },
  record { slot = 0 },
  ground (arith, release-done t this.slot d held pos own),
  ground (
    arith,
    hazard_of-set_owner other.slot this.slot 0 (set_hazard this.slot 0 d.head),
    hazard_of-set_hazard_ne other.slot this.slot 0 d.head,
  ),
  refl,
  (released-free this.slot d (omega arith)).0,
  (released-free this.slot d (omega arith)).1,
)

-- What holds while a holder protects `p`, and once it is destroyed.
pub record Lifecycle (t p : ℕ) (d : HazPtrDomain) (h : HazPtrHolder) (m : HazPtrDomain)
    : Type 0 where
  pub seen : get h m ≡ p
  pub protected : is_protected m p ≡ true
  pub after : HazPtrDomain
  pub destroyed : destroy_holder t h m ≡ done after
  pub cleared : hazard_of h.slot after.head ≡ 0
  pub owners : (b : ℕ) → owner_of b after.head ≡ owner_of b d.head

holding :
    {t p : ℕ} (d e : HazPtrDomain) (a : ℕ)
    → 0 < t
    → 0 < p
    → Acquired t d e a
    → Lifecycle t p d (record { slot = a }) (record e { head = set_hazard a p e.head })
unfolding get release_holder destroy_holder is_protected
holding {t} {p} d e a ht hp k = record {
  seen = ground (arith, shown, k.not_null);
  protected = is_protected_of_hazard a p _ shown hp;
  after = released a m;
  destroyed = ground (arith, k.not_null, release-done t a m k.not_null ht own);
  cleared = (released-free a m (omega (arith, own))).1;
  owners = λ b. elim (ℕ_discrete b a) [
    | yes same ↦ rw same ((released-free a m (omega (arith, own))).0 ∙ sym k.was_free)
    | no other ↦
        (released-others a b m (omega (arith, own)) other).0
        ∙ owner_of-set_hazard b a p e.head
        ∙ k.others b other
  ];
}
  where
    m : HazPtrDomain
    m = record e { head = set_hazard a p e.head }

    own : owner_of a m.head ≡ t
    own = owner_of-set_hazard a a p e.head ∙ k.owned

    shown : hazard_of a m.head ≡ p
    shown = hazard_of-set_hazard_self a p e.head (omega (arith, k.owned))

-- A holder that is made in a quiet domain, protects `p` and is destroyed: while it lives, `get`
-- gives `p`, and `isProtected` finds it. Its destructor returns, it leaves the slot protecting
-- nothing, and every slot has the owner that it had before.
pub holder-Lifecycle :
    (t p : ℕ) (d : HazPtrDomain)
    → 0 < t
    → 0 < p
    → IsQuiet d
    → let (e, h) = make_holder t d in Lifecycle t p d h (protect p h e)
unfolding make_holder protect
holder-Lifecycle t p d ht hp q =
    rw (protecting (acquire t d).0 (acquire t d).1 k.not_null)
      (holding d (acquire t d).0 (acquire t d).1 ht hp k)
  where
    k : Acquired t d (acquire t d).0 (acquire t d).1
    k = acquire-exclusive t d q

    protecting :
        (e : HazPtrDomain) (a : ℕ)
        → 0 < a
        → protect p (record { slot = a }) e ≡ record e { head = set_hazard a p e.head }
    protecting e a h = ground arith
