-- ===== src/Prelude/Bits.antt =====
-- The bits of a number, and the digit recursion of the native bit operations.
pub mod Laws
use Prim.Native.Nat.{
  ℕ, zero, suc, ◌+◌, ◌-◌, ◌*◌, ◌/◌, ◌%◌, ◌^◌, ◌≤◌, min, max, bit_and, bit_or, digits,
  bit_and-bitwise, bit_or-bitwise,
}
use mathlib.Core.Path.{◌≡◌, refl, ap}
use native.Mathlib.Omega.{arith}

-- Bit `i` of `x`, 0 or 1.
pub bit : ℕ → ℕ → ℕ
bit zero x = x % 2
bit (suc i) x = bit i (x / 2)

-- `~x` in a word of `k` bits.
abbrev pub complement : ℕ → ℕ → ℕ
complement k x = 2 ^ k - 1 - x

-- The recursion behind the native operations: beyond the first number, more fuel changes nothing.
module _ (base : ℕ → ℕ) (op : ℕ → ℕ → ℕ) where
  same_digits :
      (x y some_fuel more : ℕ)
      → x ≤ some_fuel
      → x ≤ more
      → digits base op some_fuel x y ≡ digits base op more x y
  same_digits zero y zero zero _ _ = refl
  same_digits zero y zero (suc more) _ _ = refl
  same_digits zero y (suc some_fuel) zero _ _ = refl
  same_digits zero y (suc some_fuel) (suc more) _ _ = refl
  same_digits (suc x) y zero more h _ = absurd (omega arith)
  same_digits (suc x) y (suc some_fuel) zero _ h = absurd (omega arith)
  same_digits (suc x) y (suc some_fuel) (suc more) h h' =
      ap (λ halves. halves * 2 + op (suc x % 2) (y % 2))
        (same_digits (suc x / 2) (y / 2) some_fuel more (omega arith) (omega arith))

pub zero-bit_and : (y : ℕ) → bit_and 0 y ≡ 0
zero-bit_and y = bit_and-bitwise 0 y

pub zero-bit_or : (y : ℕ) → bit_or 0 y ≡ y
zero-bit_or y = bit_or-bitwise 0 y

-- Each operation works on the lowest bits, and on the halves.
pub bit_and_step : (x y : ℕ) → bit_and x y ≡ bit_and (x / 2) (y / 2) * 2 + min (x % 2) (y % 2)
bit_and_step zero y = omega (arith, zero-bit_and (y / 2), zero-bit_and y)
bit_and_step (suc x) y =
    let halves =
      same_digits (λ _. zero) min (suc x / 2) (y / 2) x (suc x / 2) (omega arith) (omega arith) in
    omega (arith, bit_and-bitwise (suc x) y, halves, bit_and-bitwise (suc x / 2) (y / 2))

pub bit_or_step : (x y : ℕ) → bit_or x y ≡ bit_or (x / 2) (y / 2) * 2 + max (x % 2) (y % 2)
bit_or_step zero y = omega (arith, zero-bit_or (y / 2), zero-bit_or y)
bit_or_step (suc x) y =
    let halves =
      same_digits (λ b. b) max (suc x / 2) (y / 2) x (suc x / 2) (omega arith) (omega arith) in
    omega (arith, bit_or-bitwise (suc x) y, halves, bit_or-bitwise (suc x / 2) (y / 2))

pub bit_le_one : (i x : ℕ) → bit i x ≤ 1
unfolding bit
bit_le_one zero x = omega arith
bit_le_one (suc i) x = bit_le_one i (x / 2)
