-- ===== src/MailboxAuth/Challenges/Tolerance.antt =====
-- Which signed timestamps pass.
use taproot_assets_rest_gate.Prelude.{ℕ, ◌+◌, ◌≤◌, ◌<◌, ◌^◌, false, ◌≡◌, ◌↔◌, ◌⊎◌, arith}
use taproot_assets_rest_gate.Prelude.Int.{
  ℤ, pos, negsuc, pos_part, neg_part, IsI64, sub_i64, abs_i64,
}
use taproot_assets_rest_gate.MailboxAuth.Challenges.{out_of_tolerance}

-- The two are at most thirty seconds apart.
abbrev pub WithinTolerance : ℤ → ℤ → Type 0
WithinTolerance a b =
    (pos_part a + neg_part b ≤ pos_part b + neg_part a + 30)
    × (pos_part b + neg_part a ≤ pos_part a + neg_part b + 30)

-- The first is exactly 2^63 above the second.
abbrev pub IsApart : ℤ → ℤ → Type 0
IsApart a b = pos_part a + neg_part b ≡ pos_part b + neg_part a + 2 ^ 63

-- Against a time of the gateway's clock, which is neither negative nor past 2^62 seconds, the test
-- passes exactly when the two differ by at most thirty seconds, or when the difference is 2^63: this
-- overflows to the least `i64`, whose absolute value overflows to itself.
pub out_of_tolerance_iff :
    (now : ℕ) (signed : ℤ)
    → now < 2 ^ 62
    → IsI64 signed
    → (out_of_tolerance (pos now) signed ≡ false)
      ↔ (WithinTolerance (pos now) signed ⊎ IsApart (pos now) signed)
unfolding out_of_tolerance abs_i64 sub_i64
out_of_tolerance_iff now (pos n) h i = ground arith
out_of_tolerance_iff now (negsuc n) h i = ground arith
