-- ===== src/Base/Int.antt =====
-- Signed integers over the native numbers, and the two's complement reading of a machine word.
use Prim.Native.Nat.{ℕ, suc, ◌-◌, ◌^◌, ◌%◌}
use tiny_reactor.Base.Tests.{ltb, leb, if◌then◌else◌}

-- `negsuc n` is -(n + 1).
pub data ℤ : Type 0 where
  pos : ℕ → ℤ
  negsuc : ℕ → ℤ

abbrev pub pos_part : ℤ → ℕ
pos_part (pos n) = n
pos_part (negsuc n) = 0

abbrev pub neg_part : ℤ → ℕ
neg_part (pos n) = 0
neg_part (negsuc n) = suc n

-- a - b, as an integer.
abbrev pub sub_ℕ : ℕ → ℕ → ℤ
sub_ℕ a b = if leb b a then pos (a - b) else negsuc (b - a - 1)

-- A 64-bit word read as an `int64_t`.
abbrev pub to_int64 : ℕ → ℤ
to_int64 w = if ltb w (2 ^ 63) then pos w else negsuc (2 ^ 64 - w - 1)

-- An `int64_t` as its 64-bit word, for a value in range.
abbrev pub of_int64 : ℤ → ℕ
of_int64 (pos n) = n % 2 ^ 64
of_int64 (negsuc n) = (2 ^ 64 - suc n) % 2 ^ 64
