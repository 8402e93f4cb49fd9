-- ===== src/Hazptr/Retire.antt =====
-- hazard_pointer.hpp: the branches of `RetirePointer`, and when it waits for its own thread.
use tiny_reactor.Base.{
  ℕ, ◌+◌, ◌≤◌, ◌<◌, ◌≡◌, ◌↔◌, ◌⊎◌, inl, inr, Bool-cases, [], ◌∷◌, ◌++◌, leb, ltb, if◌then◌else◌,
  length, length-append, update, arith,
}
use tiny_reactor.Hazptr.{HazPtrDomain, RetiredPtr, done, stuck, global_threshold, retire_pointer}
use tiny_reactor.Hazptr.Scan.{splice}

-- The domain once the object is on its thread's list.
abbrev pub pushed : ℕ → RetiredPtr → HazPtrDomain → HazPtrDomain
pushed t r d = record d {
  tl = update d.tl t (record (d.tl t) { retired_list = (d.tl t).retired_list ++ r ∷ [] });
}

abbrev pub retired : ℕ → ℕ → RetiredPtr
retired p del = record { ptr = p; deleter = del }

-- The three ways of a call.
pub retire_pointer_lem :
    (t p del : ℕ) (d : HazPtrDomain)
    → 0 < t
    → d.global_retired_mutex ≡ 0
    → let e = pushed t (retired p del) d in
      retire_pointer t p del d ≡ (
        if leb (d.tl t).scan_threshold (length ((d.tl t).retired_list ++ retired p del ∷ []))
        then (if ltb global_threshold (length (splice t e).global_retired)
            then stuck
            else done (splice t e))
        else done e)
unfolding retire_pointer
retire_pointer_lem t p del d pos free = ground arith

pub length-splice :
    (t : ℕ) (r : RetiredPtr) (d : HazPtrDomain)
    → length (splice t (pushed t r d)).global_retired
      ≡ length d.global_retired + length (d.tl t).retired_list + 1
length-splice t r d = ground (
  arith,
  length-append d.global_retired ((d.tl t).retired_list ++ r ∷ []),
  length-append (d.tl t).retired_list (r ∷ []),
)

-- `RetirePointer`, called while the mutex is free, never returns exactly when the thread's list,
-- with the new object, has reached its threshold and the global list, with that list spliced to it,
-- exceeds `kGlobalThreshold`: the call of `Scan` locks the mutex that its own thread holds.
pub retire_pointer-stuck_iff :
    (t p del : ℕ) (d : HazPtrDomain)
    → 0 < t
    → d.global_retired_mutex ≡ 0
    → (retire_pointer t p del d ≡ stuck) ↔ (
        ((d.tl t).scan_threshold ≤ length (d.tl t).retired_list + 1)
        × (5000 < length d.global_retired + length (d.tl t).retired_list + 1))
retire_pointer-stuck_iff t p del d pos free = (
  λ h. ground (
    arith,
    retire_pointer_lem t p del d pos free,
    length-splice t (retired p del) d,
    length-append (d.tl t).retired_list (retired p del ∷ []),
  ),
  λ h. ground (
    arith,
    retire_pointer_lem t p del d pos free,
    length-splice t (retired p del) d,
    length-append (d.tl t).retired_list (retired p del ∷ []),
  ),
)

-- A call that returns leaves the slots alone and frees nothing.
pub record Untouched (d e : HazPtrDomain) : Type 0 where
  pub head : e.head ≡ d.head
  pub freed : e.freed ≡ d.freed
  pub next_addr : e.next_addr ≡ d.next_addr
  pub mutex : e.global_retired_mutex ≡ d.global_retired_mutex

pub retire_pointer-Untouched :
    (t p del : ℕ) (d e : HazPtrDomain)
    → 0 < t
    → d.global_retired_mutex ≡ 0
    → retire_pointer t p del d ≡ done e
    → Untouched d e
retire_pointer-Untouched t p del d e pos free h =
    ground (arith, retire_pointer_lem t p del d pos free)

-- Where a call that returns leaves the domain.
pub retire_pointer_inv :
    (t p del : ℕ) (d e : HazPtrDomain)
    → 0 < t
    → d.global_retired_mutex ≡ 0
    → retire_pointer t p del d ≡ done e
    → (e ≡ pushed t (retired p del) d) ⊎ (e ≡ splice t (pushed t (retired p del) d))
retire_pointer_inv t p del d e pos free h =
    elim (Bool-cases
      (leb (d.tl t).scan_threshold (length ((d.tl t).retired_list ++ retired p del ∷ [])))) [
        | inl full ↦ inr (ground (arith, retire_pointer_lem t p del d pos free))
        | inr room ↦ inl (ground (arith, retire_pointer_lem t p del d pos free))
      ]
