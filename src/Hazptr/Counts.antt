-- ===== src/Hazptr/Counts.antt =====
-- hazard_pointer.hpp: how often an object stands on the lists of retired and of freed objects.
use tiny_reactor.Base.{
  ℕ, ◌+◌, ◌<◌, ◌≡◌, refl, ◌∙◌, Bool, not, List, [], ◌∷◌, ◌++◌, ◌==◌, if◌then◌else◌, All, select,
  total, total-update, arith,
}
use tiny_reactor.Hazptr.{HazPtrDomain, ThreadData, RetiredPtr, is_protected, collect}
use tiny_reactor.Hazptr.Scan.{splice, reclaimed}
use tiny_reactor.Hazptr.Retire.{pushed}

-- How often an object stands in a list of retired ones.
unfoldable pub count : ℕ → List RetiredPtr → ℕ
count p [] = 0
count p (r ∷ rs) = (if r.ptr == p then 1 else 0) + count p rs

pub count-append : (p : ℕ) (xs ys : List RetiredPtr) → count p (xs ++ ys) ≡ count p xs + count p ys
unfolding count
count-append p [] ys = omega arith
count-append p (x ∷ xs) ys = omega (arith, count-append p xs ys)

count-select :
    (p : ℕ) (f : RetiredPtr → Bool) (xs : List RetiredPtr)
    → count p (select f xs) + count p (select (λ r. not (f r)) xs) ≡ count p xs
unfolding count
count-select p f [] = refl
count-select p f (x ∷ xs) = ground (arith, count-select p f xs)

abbrev pub held_by : ℕ → ThreadData → ℕ
held_by p td = count p td.retired_list

-- The number of times that `p` is retired and not freed, or freed, in a domain with threads below `n`.
abbrev pub accounted : ℕ → ℕ → HazPtrDomain → ℕ
accounted p n d = total (held_by p) n d.tl + count p d.global_retired + count p d.freed

module _ (p n : ℕ) where
  pub splice-accounted :
      (k : ℕ) (d : HazPtrDomain) → k < n → accounted p n (splice k d) ≡ accounted p n d
  unfolding count
  splice-accounted k d h = omega (
    arith,
    total-update (held_by p) n d.tl k (record (d.tl k) { retired_list = [] }) h,
    count-append p d.global_retired (d.tl k).retired_list,
  )

  pub collect-accounted :
      (ks : List ℕ) (d : HazPtrDomain)
      → All (λ k. k < n) ks
      → accounted p n (collect ks d) ≡ accounted p n d
  unfolding collect
  collect-accounted [] d h = refl
  collect-accounted (k ∷ ks) d h = collect-accounted ks (splice k d) h.1 ∙ splice-accounted k d h.0

  pub reclaimed-accounted : (d : HazPtrDomain) → accounted p n (reclaimed d) ≡ accounted p n d
  reclaimed-accounted d = omega (
    arith,
    count-append p d.freed (select (λ r. not (is_protected d r.ptr)) d.global_retired),
    count-select p (λ r. is_protected d r.ptr) d.global_retired,
  )

  pub pushed-accounted :
      (t : ℕ) (r : RetiredPtr) (d : HazPtrDomain)
      → t < n
      → accounted p n (pushed t r d) ≡ accounted p n d + (if r.ptr == p then 1 else 0)
  unfolding count
  pushed-accounted t r d h = omega (
    arith,
    total-update (held_by p) n d.tl t
        (record (d.tl t) { retired_list = (d.tl t).retired_list ++ r ∷ [] }) h,
    count-append p (d.tl t).retired_list (r ∷ []),
  )
