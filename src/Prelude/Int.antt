-- ===== src/Prelude/Int.antt =====
-- Signed integers over the native numbers, and the wrap-around of `i64`.
use Prim.Native.Nat.{ℕ, suc, ◌+◌, ◌-◌, ◌^◌, ◌≤◌}
use mathlib.Core.Bool.{Bool}
use taproot_assets_rest_gate.Prelude.Tests.{ltb, leb, if◌then◌else◌}

-- `negsuc n` is -(n + 1).
pub data ℤ : Type 0 where
  pos : ℕ → ℤ
  negsuc : ℕ → ℤ

abbrev pub pos_part : ℤ → ℕ
pos_part (pos n) = n
pos_part (negsuc n) = 0

abbrev pub neg_part : ℤ → ℕ
neg_part (pos n) = 0
neg_part (negsuc n) = suc n

-- a - b, as an integer.
abbrev pub sub_ℕ : ℕ → ℕ → ℤ
sub_ℕ a b = if leb b a then pos (a - b) else negsuc (b - a - 1)

infixl 65 ◌-ℤ◌
unfoldable pub ◌-ℤ◌ : ℤ → ℤ → ℤ
a -ℤ b = sub_ℕ (pos_part a + neg_part b) (neg_part a + pos_part b)

infix 50 ◌≤ℤ◌
abbrev pub ◌≤ℤ◌ : ℤ → ℤ → Type 0
a ≤ℤ b = pos_part a + neg_part b ≤ pos_part b + neg_part a

abbrev pub ltb_ℤ : ℤ → ℤ → Bool
ltb_ℤ a b = ltb (pos_part a + neg_part b) (pos_part b + neg_part a)

abbrev pub i64_max : ℕ
i64_max = 2 ^ 63 - 1

-- The range of `i64`: -2^63 to 2^63 - 1.
abbrev pub IsI64 : ℤ → Type 0
IsI64 a = (pos_part a ≤ i64_max) × (neg_part a ≤ i64_max + 1)

-- The value that 64 bits keep of a sum or difference of two `i64`s, which is off by 2^64 at most.
unfoldable pub wrap_i64 : ℤ → ℤ
wrap_i64 (pos n) = if leb n i64_max then pos n else sub_ℕ n (2 ^ 64)
wrap_i64 (negsuc n) = if leb n i64_max then negsuc n else sub_ℕ (2 ^ 64) (suc n)

-- `a - b` and `a.abs()` as a release build computes them: without overflow checks.
unfoldable pub sub_i64 : ℤ → ℤ → ℤ
unfolding ◌-ℤ◌ wrap_i64
sub_i64 a b = wrap_i64 (a -ℤ b)

unfoldable pub abs_i64 : ℤ → ℤ
unfolding wrap_i64
abs_i64 (pos n) = pos n
abs_i64 (negsuc n) = wrap_i64 (pos (suc n))
