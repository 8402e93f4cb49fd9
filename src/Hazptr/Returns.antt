-- ===== src/Hazptr/Returns.antt =====
-- hazard_pointer.hpp: which calls return.
use tiny_reactor.Base.{
  ℕ, ◌+◌, ◌≤◌, ◌<◌, ◌≡◌, ◌⊎◌, inl, inr, refl, arith, length, Bool-cases, leb, [], ◌∷◌, ◌++◌,
}
use tiny_reactor.Hazptr.{
  HazPtrDomain, done, Call, registers, unregisters, acquires, scans, collects, reclaims, releases,
  protects, retires, release, retire_pointer, step,
}
use tiny_reactor.Hazptr.Slots.{owner_of, released}
use tiny_reactor.Hazptr.Scan.{scan-done, collect_all-done, reclaim_all-done, splice}
use tiny_reactor.Hazptr.Retire.{retire_pointer_lem, retired, pushed, length-splice}
use tiny_reactor.Hazptr.Protection.{IsQuiet, Named}
use tiny_reactor.Hazptr.Exclusion.{release-done}

-- A release is of no slot or of one's own; a retirement leaves the global list within its threshold.
abbrev pub Permitted : Call → HazPtrDomain → Type 0
Permitted (releases t a) d = (a ≡ 0) ⊎ ((0 < a) × (owner_of a d.head ≡ t))
Permitted (retires t p del) d = length d.global_retired + length (d.tl t).retired_list + 1 ≤ 5000
Permitted _ d = Unit

release_returns :
    (t a : ℕ) (d : HazPtrDomain)
    → 0 < t
    → Permitted (releases t a) d
    → (e : HazPtrDomain) × (release t a d ≡ done e)
unfolding release
release_returns t a d pos (inl null) = (d, ground arith)
release_returns t a d pos (inr own) = (released a d, release-done t a d own.0 pos own.1)

retire_returns :
    (t p del : ℕ) (d : HazPtrDomain)
    → 0 < t
    → d.global_retired_mutex ≡ 0
    → Permitted (retires t p del) d
    → (e : HazPtrDomain) × (retire_pointer t p del d ≡ done e)
retire_returns t p del d pos free small =
    elim (Bool-cases
      (leb (d.tl t).scan_threshold (length ((d.tl t).retired_list ++ retired p del ∷ [])))) [
        | inl full ↦ (
          splice t (pushed t (retired p del) d),
          ground (arith, retire_pointer_lem t p del d pos free, length-splice t (retired p del) d),
        )
        | inr room ↦
            (pushed t (retired p del) d, ground (arith, retire_pointer_lem t p del d pos free))
      ]

-- In a quiet domain every call by a thread with an id returns, if a release is of no slot or of one
-- that the thread owns, and if a retirement keeps the global list, with the thread's own list and
-- the new object added, within 5000.
pub step_returns :
    (c : Call) (d : HazPtrDomain)
    → IsQuiet d
    → Named c
    → Permitted c d
    → (e : HazPtrDomain) × (step c d ≡ done e)
unfolding step
step_returns (registers t) d q n ok = (_, refl)
step_returns (unregisters t) d q n ok = (_, refl)
step_returns (acquires t) d q n ok = (_, refl)
step_returns (scans t) d q n ok = (_, scan-done t d q.unlocked)
step_returns (collects t) d q n ok = (_, collect_all-done t d q.unlocked)
step_returns (reclaims t) d q n ok = (_, reclaim_all-done t d q.unlocked)
step_returns (releases t a) d q n ok = release_returns t a d n ok
step_returns (protects a p) d q n ok = (_, refl)
step_returns (retires t p del) d q n ok = retire_returns t p del d n q.unlocked ok
