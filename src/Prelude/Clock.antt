-- ===== src/Prelude/Clock.antt =====
-- Instants and durations as counts of nanoseconds. `a - b` stops at 0, like `duration_since`.
use Prim.Native.Nat.{ℕ, ◌+◌, ◌*◌, ◌/◌, ◌%◌, ◌^◌}

abbrev pub secs : ℕ → ℕ
secs n = n * 10 ^ 9

abbrev pub as_secs : ℕ → ℕ
as_secs d = d / 10 ^ 9

-- `+=` on a 64-bit counter, as a release build computes it.
abbrev pub add_u64 : ℕ → ℕ → ℕ
add_u64 a b = (a + b) % 2 ^ 64

abbrev pub next_u64 : ℕ → ℕ
next_u64 a = add_u64 a 1
