-- ===== src/Executor/Fib.antt =====
-- task_executor.cpp: the built-in function `fib`. An `int` is an integer, and `undefined` stands for
-- the behaviour of a signed addition that overflows.
use Prim.Native.Nat.add
use tiny_reactor.Base.{
  ℕ, zero, suc, ◌+◌, ◌-◌, ◌≤◌, ◌<◌, ◌^◌, ◌≡◌, refl, ap, ◌∙◌, Bool, true, false, ltb, leb,
  if◌then◌else◌, arith, lt→ltb, Bool-cases, inl, inr,
}
use tiny_reactor.Base.Int.{ℤ, pos, negsuc}

pub data FibOutcome : Type 0 where
  fib_result : ℤ → FibOutcome
  fib_cancelled negative_input undefined : FibOutcome

-- The loop with `rounds` rounds left and the loop variable at `i`; `flags i` is what the load of the
-- cancellation flag gives in that round.
pub fib_loop : (flags : ℕ → Bool) → ℕ → ℕ → ℕ → ℕ → FibOutcome
fib_loop flags zero i a b = fib_result (pos b)
fib_loop flags (suc rounds) i a b =
    let rest = fib_loop flags rounds (suc i) b (a + b) in
    if flags i then fib_cancelled else if ltb (a + b) (2 ^ 31) then rest else undefined

-- `fib` of the parameter `n`.
unfoldable pub fib : (flags : ℕ → Bool) → ℤ → FibOutcome
unfolding fib_loop
fib flags (negsuc _) = negative_input
fib flags (pos n) = if leb n 1 then fib_result (pos n) else fib_loop flags (n - 1) 2 0 1

-- The Fibonacci numbers.
unfoldable pub fibonacci : ℕ → ℕ
fibonacci zero = 0
fibonacci (suc zero) = 1
fibonacci (suc (suc n)) = fibonacci (suc n) + fibonacci n

pair : ℕ → ℕ × ℕ
pair zero = (0, 1)
pair (suc n) = ((pair n).1, (pair n).0 + (pair n).1)

pair-fibonacci : (n : ℕ) → (fibonacci n ≡ (pair n).0) × (fibonacci (suc n) ≡ (pair n).1)
unfolding pair fibonacci
pair-fibonacci zero = (refl, refl)
pair-fibonacci (suc n) = let (here, next) = pair-fibonacci n in (next, omega (arith, here, next))

fibonacci_step : (n : ℕ) → fibonacci n ≤ fibonacci (suc n)
unfolding fibonacci
fibonacci_step zero = omega arith
fibonacci_step (suc n) = omega arith

fibonacci_mono : (k n : ℕ) → fibonacci n ≤ fibonacci (k + n)
fibonacci_mono zero n = rw (add.zero n) (omega arith)
fibonacci_mono (suc k) n =
    rw (add.suc k n) (omega (arith, fibonacci_mono k n, fibonacci_step (k + n)))

fibonacci_46 : fibonacci 46 ≡ 1836311903
unfolding pair
fibonacci_46 = (pair-fibonacci 46).0

fibonacci_47 : fibonacci 47 ≡ 2971215073
unfolding pair
fibonacci_47 = (pair-fibonacci 47).0

-- The numbers up to the 46th fit in an `int`, and the 47th does not.
fibonacci_fits : (n : ℕ) → n ≤ 46 → fibonacci n < 2 ^ 31
fibonacci_fits n h =
    let e : 46 - n + n ≡ 46 = omega arith in
    omega (arith, fibonacci_mono (46 - n) n, ap fibonacci e, fibonacci_46)

fibonacci_next : (m : ℕ) → fibonacci m + fibonacci (suc m) ≡ fibonacci (suc (suc m))
unfolding fibonacci
fibonacci_next m = omega arith

module _ (flags : ℕ → Bool) where
  -- One round whose flag is not set.
  loop_round :
      (r i m : ℕ)
      → flags i ≡ false
      → suc (suc m) ≤ 46
      → fib_loop flags (suc r) i (fibonacci m) (fibonacci (suc m))
        ≡ fib_loop flags r (suc i) (fibonacci (suc m)) (fibonacci (suc (suc m)))
  unfolding fib_loop
  loop_round r i m quiet h =
      rw (quiet, fibonacci_next m, lt→ltb _ _ (fibonacci_fits (suc (suc m)) h))

  -- The round that would compute the 47th number.
  loop_over :
      (r i m : ℕ)
      → flags i ≡ false
      → m ≡ 45
      → fib_loop flags (suc r) i (fibonacci m) (fibonacci (suc m)) ≡ undefined
  unfolding fib_loop
  loop_over r i m quiet last = rw (quiet, sum)
    where
      sum : fibonacci m + fibonacci (suc m) ≡ 2971215073
      sum = fibonacci_next m ∙ ap (λ x. fibonacci (suc (suc x))) last ∙ fibonacci_47

  loop_result :
      (r i m : ℕ)
      → ((j : ℕ) → i ≤ j → j < i + r → flags j ≡ false)
      → suc m + r ≤ 46
      → fib_loop flags r i (fibonacci m) (fibonacci (suc m))
        ≡ fib_result (pos (fibonacci (suc m + r)))
  unfolding fib_loop
  loop_result zero i m quiet h = ap (λ x. fib_result (pos (fibonacci x))) (omega arith)
  loop_result (suc r) i m quiet h =
      loop_round r i m (quiet i (omega arith) (omega arith)) (omega arith)
      ∙ loop_result r (suc i) (suc m) (λ j a b. quiet j (omega arith) (omega arith)) (omega arith)
      ∙ ap (λ x. fib_result (pos (fibonacci x))) (omega arith)

  loop_undefined :
      (r i m : ℕ)
      → ((j : ℕ) → i ≤ j → j < i + r → flags j ≡ false)
      → suc m ≤ 46
      → 46 < suc m + r
      → fib_loop flags r i (fibonacci m) (fibonacci (suc m)) ≡ undefined
  loop_undefined zero i m quiet small h = absurd (omega arith)
  loop_undefined (suc r) i m quiet small h = elim (Bool-cases (leb (suc (suc m)) 46)) [
    | inl fits ↦
        loop_round r i m (quiet i (omega arith) (omega arith)) (ground arith)
        ∙ loop_undefined r (suc i) (suc m) (λ j a b. quiet j (omega arith) (omega arith))
            (ground arith) (omega arith)
    | inr over ↦ loop_over r i m (quiet i (omega arith) (omega arith)) (ground arith)
  ]

  loop_cancelled :
      (k r i m : ℕ)
      → ((j : ℕ) → i ≤ j → j < i + k → flags j ≡ false)
      → flags (i + k) ≡ true
      → k < r
      → suc m + k ≤ 46
      → fib_loop flags r i (fibonacci m) (fibonacci (suc m)) ≡ fib_cancelled
  unfolding fib_loop
  loop_cancelled k zero i m quiet set h fits = absurd (omega arith)
  loop_cancelled zero (suc r) i m quiet set h fits = rw (same ∙ set)
    where
      same : flags i ≡ flags (i + 0)
      same = ap flags (omega arith)
  loop_cancelled (suc k) (suc r) i m quiet set h fits =
      loop_round r i m (quiet i (omega arith) (omega arith)) (omega arith)
      ∙ loop_cancelled k r (suc i) (suc m) (λ j a b. quiet j (omega arith) (omega arith))
          (shifted ∙ set) (omega arith) (omega arith)
    where
      shifted : flags (suc i + k) ≡ flags (i + suc k)
      shifted = ap flags (omega arith)

fib_small : (flags : ℕ → Bool) (n : ℕ) → n ≤ 1 → fib flags (pos n) ≡ fib_result (pos (fibonacci n))
unfolding fib fibonacci
fib_small flags zero h = refl
fib_small flags (suc zero) h = refl
fib_small flags (suc (suc n)) h = absurd (omega arith)

fib_large :
    (flags : ℕ → Bool) (m : ℕ)
    → fib flags (pos (suc (suc m))) ≡ fib_loop flags (suc m) 2 (fibonacci 0) (fibonacci 1)
unfolding fib fibonacci
fib_large flags m =
    let large : leb (suc (suc m)) 1 ≡ false = ground arith in
    let rounds : suc (suc m) - 1 ≡ suc m = omega arith in rw (large, rounds)

-- While the flag is not set in any round, `fib` of a number from 0 to 46 is the Fibonacci number, and
-- `fib` of a larger number has undefined behaviour, since an `int` overflows. A negative number is
-- refused whatever the flag.
pub fib-fibonacci :
    (flags : ℕ → Bool) (n : ℕ)
    → ((j : ℕ) → 2 ≤ j → j ≤ n → flags j ≡ false)
    → (n ≤ 46 → fib flags (pos n) ≡ fib_result (pos (fibonacci n)))
      × (46 < n → fib flags (pos n) ≡ undefined)
      × (fib flags (negsuc n) ≡ negative_input)
unfolding fib
fib-fibonacci flags zero quiet =
    (λ h. fib_small flags 0 (omega arith), λ h. absurd (omega arith), refl)
fib-fibonacci flags (suc zero) quiet =
    (λ h. fib_small flags 1 (omega arith), λ h. absurd (omega arith), refl)
fib-fibonacci flags (suc (suc m)) quiet = (
  λ h.
      fib_large flags m
      ∙ loop_result flags (suc m) 2 0 (λ j a b. quiet j a (omega arith)) (omega arith)
      ∙ ap (λ x. fib_result (pos (fibonacci x))) (omega arith),
  λ h.
      fib_large flags m
      ∙ loop_undefined flags (suc m) 2 0 (λ j a b. quiet j a (omega arith)) (omega arith)
          (omega arith),
  refl,
)

-- If the flag is first seen set in a round `j` of the loop of `fib n`, and no round before it
-- overflows, the result is that of a cancelled task.
pub fib_stops :
    (flags : ℕ → Bool) (n j : ℕ)
    → 2 ≤ j
    → j ≤ n
    → j ≤ 47
    → flags j ≡ true
    → ((i : ℕ) → 2 ≤ i → i < j → flags i ≡ false)
    → fib flags (pos n) ≡ fib_cancelled
fib_stops flags zero j a b c set quiet = absurd (omega arith)
fib_stops flags (suc zero) j a b c set quiet = absurd (omega arith)
fib_stops flags (suc (suc m)) j a b c set quiet =
    fib_large flags m
    ∙ loop_cancelled flags (j - 2) (suc m) 2 0 (λ i d e. quiet i d (omega arith)) (same ∙ set)
        (omega arith) (omega arith)
  where
    same : flags (2 + (j - 2)) ≡ flags j
    same = ap flags (omega arith)
