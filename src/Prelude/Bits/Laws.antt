-- ===== src/Prelude/Bits/Laws.antt =====
-- What the bit operations do to each bit, and equality of numbers by their bits.
use Prim.Native.Nat.{
  ℕ, zero, suc, ◌+◌, ◌-◌, ◌*◌, ◌/◌, ◌%◌, ◌^◌, ◌≤◌, ◌<◌, min, max, bit_and, bit_or,
}
use mathlib.Core.Path.{◌≡◌, refl, ap}
use native.Mathlib.Omega.{arith}
use native.Mathlib.Nat.{pow-suc, one-le-pow}
use mod_perl.Prelude.Bits.{bit, complement, bit_and_step, bit_or_step, zero-bit_and, zero-bit_or}

pub bit-bit_and : (i x y : ℕ) → bit i (bit_and x y) ≡ min (bit i x) (bit i y)
unfolding bit
bit-bit_and zero x y = omega (arith, bit_and_step x y)
bit-bit_and (suc i) x y =
    let half : bit_and x y / 2 ≡ bit_and (x / 2) (y / 2) = omega (arith, bit_and_step x y) in
    rw half (bit-bit_and i (x / 2) (y / 2))

pub bit-bit_or : (i x y : ℕ) → bit i (bit_or x y) ≡ max (bit i x) (bit i y)
unfolding bit
bit-bit_or zero x y = omega (arith, bit_or_step x y)
bit-bit_or (suc i) x y =
    let half : bit_or x y / 2 ≡ bit_or (x / 2) (y / 2) = omega (arith, bit_or_step x y) in
    rw half (bit-bit_or i (x / 2) (y / 2))

pub bit-complement : (k i x : ℕ) → i < k → x < 2 ^ k → bit i (complement k x) ≡ 1 - bit i x
unfolding bit
bit-complement zero i x h b = absurd (omega arith)
bit-complement (suc k) zero x h b = omega (arith, pow-suc 2 k, one-le-pow k 2)
bit-complement (suc k) (suc i) x h b =
    let half : complement (suc k) x / 2 ≡ complement k (x / 2) =
      omega (arith, pow-suc 2 k, one-le-pow k 2) in
    rw half (bit-complement k i (x / 2) (omega arith) (omega (arith, pow-suc 2 k)))

pub bit-zero : (i : ℕ) → bit i 0 ≡ 0
unfolding bit
bit-zero zero = refl
bit-zero (suc i) = bit-zero i

-- A number of `k` bits is determined by them.
pub eq_of_bits : (k x y : ℕ) → x < 2 ^ k → y < 2 ^ k → ((i : ℕ) → i < k → bit i x ≡ bit i y) → x ≡ y
unfolding bit
eq_of_bits zero x y hx hy h = omega arith
eq_of_bits (suc k) x y hx hy h = omega (
  arith,
  h 0 (omega arith),
  eq_of_bits k (x / 2) (y / 2) (omega (arith, pow-suc 2 k)) (omega (arith, pow-suc 2 k))
      (λ i hi. h (suc i) (omega arith)),
)

nothing_set : (size x : ℕ) → x ≤ size → bit_and x 0 ≡ 0
nothing_set zero zero h = zero-bit_and 0
nothing_set zero (suc x) h = absurd (omega arith)
nothing_set (suc size) zero h = zero-bit_and 0
nothing_set (suc size) (suc x) h =
    let half = nothing_set size (suc x / 2) (omega arith) in
    omega (arith, half, bit_and_step (suc x) 0)

pub bit_and-zero : (x : ℕ) → bit_and x 0 ≡ 0
bit_and-zero x = nothing_set x x (omega arith)

pub bit_and-lt : (k x y : ℕ) → x < 2 ^ k → bit_and x y < 2 ^ k
bit_and-lt zero zero y h = omega (arith, zero-bit_and y)
bit_and-lt zero (suc x) y h = absurd (omega arith)
bit_and-lt (suc k) x y h = omega (
  arith,
  pow-suc 2 k,
  bit_and_step x y,
  bit_and-lt k (x / 2) (y / 2) (omega (arith, pow-suc 2 k)),
)

pub bit_or-lt : (k x y : ℕ) → x < 2 ^ k → y < 2 ^ k → bit_or x y < 2 ^ k
bit_or-lt zero zero y h h' = omega (arith, zero-bit_or y)
bit_or-lt zero (suc x) y h h' = absurd (omega arith)
bit_or-lt (suc k) x y h h' = omega (
  arith,
  pow-suc 2 k,
  bit_or_step x y,
  bit_or-lt k (x / 2) (y / 2) (omega (arith, pow-suc 2 k)) (omega (arith, pow-suc 2 k)),
)

low_fields : (k q r : ℕ) → r < 2 ^ k → bit_and (q * 2 ^ k + r) (2 ^ k - 1) ≡ r
low_fields zero q r h = rw bit_and-zero (omega arith)
low_fields (suc k) q r h = ground (
  arith,
  bit_and_step (q * 2 ^ suc k + r) (2 ^ suc k - 1),
  low_fields k q (r / 2) (omega (arith, pow-suc 2 k)),
  pow-suc 2 k,
  one-le-pow k 2,
  ap (λ (t : ℕ). q * t) (pow-suc 2 k),
)

-- A mask of `k` low bits is the remainder by `2 ^ k`.
pub bit_and_mask : (k a : ℕ) → bit_and a (2 ^ k - 1) ≡ a % 2 ^ k
bit_and_mask k a = ground (arith, one-le-pow k 2, low_fields k (a / 2 ^ k) (a % 2 ^ k))

-- Setting more bits clears none.
pub bit_and-bit_or_zero : (n a x u : ℕ) → a ≤ n → bit_and (bit_or a x) u ≡ 0 → bit_and a u ≡ 0
bit_and-bit_or_zero zero a x u h e = ground (arith, zero-bit_and u)
bit_and-bit_or_zero (suc n) a x u h e =
    let half : bit_or a x / 2 ≡ bit_or (a / 2) (x / 2) = omega (arith, bit_or_step a x) in
    let s : bit_and (bit_or (a / 2) (x / 2)) (u / 2) ≡ 0 =
      rw (← half) (omega (arith, bit_and_step (bit_or a x) u)) in
    omega (
      arith,
      bit_and-bit_or_zero n (a / 2) (x / 2) (u / 2) (omega arith) s,
      bit_and_step a u,
      bit_and_step (bit_or a x) u,
      bit_or_step a x,
    )
