-- ===== src/Prelude/Decimal.antt =====
-- Decimal numerals, as `format!("{}")` prints them: no number is printed like another.
use Prim.Native.Nat.{ℕ, zero, suc, ◌+◌, ◌*◌, ◌/◌, ◌%◌, ◌-◌, ◌<◌}
use mathlib.Core.Path.{◌≡◌, refl, sym, ap, ◌∙◌}
use mathlib.Core.Logic.{inl, inr}
use mathlib.Core.List.{[], ◌∷◌, ◌++◌}
use native.Mathlib.Omega.{arith}
use taproot_assets_rest_gate.Prelude.Tests.{if◌then◌else◌, ltb, Bool-cases}
use taproot_assets_rest_gate.Prelude.Texts.{Text, is_digit}

-- Digits are put in front of `rest`, the lowest first.
unfoldable pub digits : ℕ → ℕ → Text → Text
digits zero n rest = rest
digits (suc fuel) n rest =
    let more = digits fuel (n / 10) ((b'0' + n % 10) ∷ rest) in
    if ltb n 10 then (b'0' + n) ∷ rest else more

unfoldable pub decimal : ℕ → Text
unfolding digits
decimal n = digits (suc n) n []

-- The number that the digits at the front of a text stand for, after `acc`.
read_digits : ℕ → Text → ℕ
read_digits acc [] = acc
read_digits acc (c ∷ cs) =
    let more = read_digits (acc * 10 + (c - b'0')) cs in if is_digit c then more else acc

read_digits-cons :
    (acc d : ℕ) (rest : Text)
    → d < 10
    → read_digits acc ((b'0' + d) ∷ rest) ≡ read_digits (acc * 10 + d) rest
unfolding read_digits
read_digits-cons acc d rest h = ground arith

-- What reading `n` after `acc` gives.
after_digits : ℕ → ℕ → ℕ → ℕ
after_digits zero n acc = acc
after_digits (suc fuel) n acc =
    let more = after_digits fuel (n / 10) acc in
    if ltb n 10 then acc * 10 + n else more * 10 + n % 10

read_digits-digits :
    (fuel n acc : ℕ) (rest : Text)
    → n < fuel
    → read_digits acc (digits fuel n rest) ≡ read_digits (after_digits fuel n acc) rest
unfolding digits after_digits
read_digits-digits zero n acc rest h = absurd (omega arith)
read_digits-digits (suc fuel) n acc rest h = elim (Bool-cases (ltb n 10)) [
  | inl e ↦ rw e (read_digits-cons acc n rest (ground arith))
  | inr e ↦ rw e (
      read_digits-digits fuel (n / 10) acc ((b'0' + n % 10) ∷ rest) (ground arith)
      ∙ read_digits-cons (after_digits fuel (n / 10) acc) (n % 10) rest (omega arith))
]

after_digits_zero : (fuel n : ℕ) → n < fuel → after_digits fuel n 0 ≡ n
unfolding after_digits
after_digits_zero zero n h = absurd (omega arith)
after_digits_zero (suc fuel) n h = ground (arith, after_digits_zero fuel (n / 10))

digits-append : (fuel n : ℕ) (s t : Text) → digits fuel n s ++ t ≡ digits fuel n (s ++ t)
unfolding digits
digits-append zero n s t = refl
digits-append (suc fuel) n s t = elim (Bool-cases (ltb n 10)) [
  | inl e ↦ rw e
  | inr e ↦ rw e (digits-append fuel (n / 10) ((b'0' + n % 10) ∷ s) t)
]

-- A numeral is read back up to the `_` that follows it.
read-decimal : (n : ℕ) (t : Text) → read_digits 0 (decimal n ++ b'_' ∷ t) ≡ n
unfolding decimal read_digits
read-decimal n t = rw digits-append (
    read_digits-digits (suc n) n 0 (b'_' ∷ t) (omega arith)
    ∙ after_digits_zero (suc n) n (omega arith))

pub decimal_injective :
    (m n : ℕ) (s t : Text) → decimal m ++ b'_' ∷ s ≡ decimal n ++ b'_' ∷ t → m ≡ n
decimal_injective m n s t h = sym (read-decimal m s) ∙ ap (read_digits 0) h ∙ read-decimal n t
