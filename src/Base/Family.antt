-- ===== src/Base/Family.antt =====
-- Data kept per thread, as functions of the thread's number: a write for one thread, and the sum of
-- a measure of the data over the threads below a bound.
use Prim.Native.Nat.{ℕ, zero, suc, ◌+◌, ◌*◌, ◌≤◌, ◌<◌}
use mathlib.Core.Path.{◌≡◌, refl, subst}
use mathlib.Core.Logic.{◌≢◌, ◌⊎◌, inl, inr}
use native.Mathlib.Decide.{dec_lt, ℕ_discrete}
use native.Mathlib.Omega.{arith}
use tiny_reactor.Base.Tests.{◌==◌, if◌then◌else◌}

abbrev pub update {ℓ} : {A : Type ℓ} → (ℕ → A) → ℕ → A → ℕ → A
update local t new k = if t == k then new else local k

unfoldable pub total {ℓ} : {A : Type ℓ} → (A → ℕ) → ℕ → (ℕ → A) → ℕ
total measure zero local = 0
total measure (suc k) local = measure (local k) + total measure k local

-- What a write for thread `t` does to the sum: nothing if `t` is not below the bound, and otherwise
-- it exchanges the measures.
Exchanged {ℓ} : {A : Type ℓ} (measure : A → ℕ) (bound t : ℕ) (new : A) (local : ℕ → A) → Type 0
Exchanged measure bound t new local =
    let before = total measure bound local in
    let after = total measure bound (update local t new) in
    ((bound ≤ t) × (after ≡ before))
    ⊎ ((t < bound) × (after + measure (local t) ≡ before + measure new))

exchanged {ℓ} :
    {A : Type ℓ} (measure : A → ℕ) (bound t : ℕ) (new : A) (local : ℕ → A)
    → Exchanged measure bound t new local
unfolding total Exchanged
exchanged measure zero t new local = inl (omega arith, refl)
exchanged measure (suc k) t new local = elim (exchanged measure k t new local) [
  | inr (below, same) ↦ inr (omega arith, ground (arith, same))
  | inl (above, same) ↦ elim (dec_lt k t) [
    | yes more ↦ inl (omega arith, ground (arith, same))
    | no last ↦ inr (omega arith, ground (arith, same))
  ]
]

-- The sum after a write for a thread below the bound.
pub total-update {ℓ} :
    {A : Type ℓ} (measure : A → ℕ) (bound : ℕ) (local : ℕ → A) (t : ℕ) (new : A)
    → t < bound
    → total measure bound (update local t new) + measure (local t)
      ≡ total measure bound local + measure new
unfolding Exchanged
total-update measure bound local t new h = elim (exchanged measure bound t new local) [
  | inl (above, same) ↦ absurd (omega arith)
  | inr (below, same) ↦ same
]

-- All data the same, and of measure 0.
pub total_zero {ℓ} :
    {A : Type ℓ} (measure : A → ℕ) (bound : ℕ) (same : A)
    → measure same ≡ 0
    → total measure bound (λ _. same) ≡ 0
unfolding total
total_zero measure zero same h = refl
total_zero measure (suc k) same h = omega (arith, h, total_zero measure k same h)

pub total_le {ℓ} :
    {A : Type ℓ} (measure : A → ℕ) (most : ℕ)
    → ((a : A) → measure a ≤ most)
    → (n : ℕ) (local : ℕ → A) → total measure n local ≤ n * most
unfolding total
total_le measure most h zero local = omega arith
total_le measure most h (suc k) local = omega (arith, h (local k), total_le measure most h k local)

-- The data of one index changes to a smaller measure, and what is measured of the others is kept.
module _ {ℓ} {A : Type ℓ} (before after : A → ℕ) (old new : ℕ → A) (t : ℕ)
    (kept : (u : ℕ) → t ≢ u → after (new u) ≡ before (old u)) where
  total_same : (n : ℕ) → n ≤ t → total after n new ≡ total before n old
  unfolding total
  total_same zero le = refl
  total_same (suc k) le =
      omega (arith, kept k (omega (arith, le)), total_same k (omega (arith, le)))

  pub total_less :
      (n : ℕ) → t < n → after (new t) < before (old t) → total after n new < total before n old
  unfolding total
  total_less zero lt less = absurd (omega (arith, lt))
  total_less (suc k) lt less = elim (ℕ_discrete t k) [
    | yes last ↦
        let here : after (new k) < before (old k) =
          subst (λ u. after (new u) < before (old u)) last less in
        omega (arith, here, total_same k (omega (arith, last)))
    | no other ↦ omega (arith, kept k other, total_less k (omega (arith, other, lt)) less)
  ]
