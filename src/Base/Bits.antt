-- ===== src/Base/Bits.antt =====
-- `&` and `|` with the masks that the sources use, as arithmetic. The native operations have no
-- laws at variables but their recursion on binary digits, from which these are proved.
use Prim.Native.Nat.{
  ℕ, zero, suc, ◌+◌, ◌*◌, ◌/◌, ◌%◌, ◌^◌, ◌≤◌, ◌<◌, bit_and, bit_or, digits, bit_and-bitwise,
  bit_or-bitwise, min, max,
}
use mathlib.Core.Path.{◌≡◌, refl, ap}
use native.Mathlib.Nat.{le_refl}
use native.Mathlib.Omega.{arith}

-- The count of digits does not matter once it covers the first number.
module _ (z : ℕ → ℕ) (f : ℕ → ℕ → ℕ) where
  digits_enough : (n m a b : ℕ) → a ≤ n → a ≤ m → digits z f n a b ≡ digits z f m a b
  digits_enough zero zero a b p q = refl
  digits_enough zero (suc m) zero b p q = refl
  digits_enough zero (suc m) (suc a) b p q = absurd (omega arith)
  digits_enough (suc n) zero zero b p q = refl
  digits_enough (suc n) zero (suc a) b p q = absurd (omega arith)
  digits_enough (suc n) (suc m) zero b p q = refl
  digits_enough (suc n) (suc m) (suc a) b p q =
      omega (arith, digits_enough n m (suc a / 2) (b / 2) (omega arith) (omega arith))

-- One digit of `a & b`.
pub bit_and-digit : (a b : ℕ) → bit_and a b ≡ bit_and (a / 2) (b / 2) * 2 + min (a % 2) (b % 2)
bit_and-digit zero b = omega (arith, bit_and-bitwise 0 b, bit_and-bitwise 0 (b / 2))
bit_and-digit (suc a) b = omega (
  arith,
  bit_and-bitwise (suc a) b,
  bit_and-bitwise (suc a / 2) (b / 2),
  digits_enough (λ _. zero) min a (suc a / 2) (suc a / 2) (b / 2) (omega arith) (omega arith),
)

-- One digit of `a | b`.
pub bit_or-digit : (a b : ℕ) → bit_or a b ≡ bit_or (a / 2) (b / 2) * 2 + max (a % 2) (b % 2)
bit_or-digit zero b = omega (arith, bit_or-bitwise 0 b, bit_or-bitwise 0 (b / 2))
bit_or-digit (suc a) b = omega (
  arith,
  bit_or-bitwise (suc a) b,
  bit_or-bitwise (suc a / 2) (b / 2),
  digits_enough (λ d. d) max a (suc a / 2) (suc a / 2) (b / 2) (omega arith) (omega arith),
)

-- k ones in binary.
abbrev ones : ℕ → ℕ
ones zero = 0
ones (suc k) = ones k * 2 + 1

and_zero : (a : ℕ) → a ≤ 0 → bit_and a 0 ≡ 0
and_zero zero h = refl
and_zero (suc a) h = absurd (omega arith)

bit_and-ones : (k a : ℕ) → a ≤ ones k → bit_and a (ones k) ≡ a
bit_and-ones zero a h = omega (arith, and_zero a h)
bit_and-ones (suc k) a h =
    let half : (ones k * 2 + 1) / 2 ≡ ones k = omega arith in
    let rest : bit_and (a / 2) ((ones k * 2 + 1) / 2) ≡ a / 2 =
      rw half (bit_and-ones k (a / 2) (omega arith)) in
    omega (arith, bit_and-digit a (ones k * 2 + 1))

-- `m << k` and `a >> k`, a digit at a time.
abbrev shl : ℕ → ℕ → ℕ
shl zero m = m
shl (suc k) m = shl k m * 2

abbrev shr : ℕ → ℕ → ℕ
shr zero a = a
shr (suc k) a = shr k (a / 2)

bit_and-shl : (k a m : ℕ) → bit_and a (shl k m) ≡ shl k (bit_and (shr k a) m)
bit_and-shl zero a m = refl
bit_and-shl (suc k) a m =
    omega (arith, bit_and-digit a (shl k m * 2), bit_and-shl k (a / 2) m, halved)
  where
    half : shl k m * 2 / 2 ≡ shl k m
    half = omega arith

    halved : bit_and (a / 2) (shl k m * 2 / 2) ≡ bit_and (a / 2) (shl k m)
    halved = rw half

and_nothing : (n a : ℕ) → a ≤ n → bit_and a 0 ≡ 0
and_nothing n zero h = refl
and_nothing zero (suc a) h = absurd (omega arith)
and_nothing (suc n) (suc a) h =
    omega (arith, bit_and-digit (suc a) 0, and_nothing n (suc a / 2) (omega arith))

and_odd : (a m : ℕ) → bit_and a (m * 2 + 1) ≡ bit_and (a / 2) m * 2 + a % 2
and_odd a m =
    let half : (m * 2 + 1) / 2 ≡ m = omega arith in
    let rest : bit_and (a / 2) ((m * 2 + 1) / 2) ≡ bit_and (a / 2) m = rw half in
    omega (arith, bit_and-digit a (m * 2 + 1))

-- `x & 0xff`.
pub bit_and-0xff : (a : ℕ) → bit_and a 0xff ≡ a % 256
bit_and-0xff a = omega (
  arith,
  and_odd a 127,
  and_odd (a / 2) 63,
  and_odd (a / 2 / 2) 31,
  and_odd (a / 2 / 2 / 2) 15,
  and_odd (a / 2 / 2 / 2 / 2) 7,
  and_odd (a / 2 / 2 / 2 / 2 / 2) 3,
  and_odd (a / 2 / 2 / 2 / 2 / 2 / 2) 1,
  and_odd (a / 2 / 2 / 2 / 2 / 2 / 2 / 2) 0,
  and_nothing _ (a / 2 / 2 / 2 / 2 / 2 / 2 / 2 / 2) (le_refl _),
)

-- `x & 0xffffffffffffff00` on an unsigned long clears the lowest byte.
pub bit_and-clear_byte : (a : ℕ) → a < 2 ^ 64 → bit_and a 0xffff_ffff_ffff_ff00 ≡ a / 256 * 256
bit_and-clear_byte a h =
    omega (arith, bit_and-shl 8 a (ones 56), bit_and-ones 56 (shr 8 a) (omega arith))

or_zero : (n a : ℕ) → a ≤ n → bit_or a 0 ≡ a
or_zero n zero h = refl
or_zero zero (suc a) h = absurd (omega arith)
or_zero (suc n) (suc a) h =
    omega (arith, bit_or-digit (suc a) 0, or_zero n (suc a / 2) (omega arith))

or_even : (y x v : ℕ) → y ≡ x * 2 → bit_or y v ≡ bit_or x (v / 2) * 2 + v % 2
or_even y x v e =
    let half : y / 2 ≡ x = omega arith in
    let low : y % 2 ≡ 0 = omega arith in
    omega (arith, bit_or-digit y v, ap (λ z. bit_or z (v / 2)) half)

or_none : (x u : ℕ) → u ≡ 0 → bit_or x u ≡ x
or_none x u e = rw e (or_zero x x (omega arith))

-- Disjoint digits add up.
pub bit_or-nibble : (x v : ℕ) → v < 16 → bit_or (x * 16) v ≡ x * 16 + v
bit_or-nibble x v h = omega (
  arith,
  or_even (x * 16) (x * 8) v (omega arith),
  or_even (x * 8) (x * 4) (v / 2) (omega arith),
  or_even (x * 4) (x * 2) (v / 2 / 2) (omega arith),
  or_even (x * 2) x (v / 2 / 2 / 2) (omega arith),
  or_none x (v / 2 / 2 / 2 / 2) (omega arith),
)

pub bit_or-byte : (x v : ℕ) → v < 256 → bit_or (x * 256) v ≡ x * 256 + v
bit_or-byte x v h = omega (
  arith,
  or_even (x * 256) (x * 128) v (omega arith),
  or_even (x * 128) (x * 64) (v / 2) (omega arith),
  or_even (x * 64) (x * 32) (v / 2 / 2) (omega arith),
  or_even (x * 32) (x * 16) (v / 2 / 2 / 2) (omega arith),
  bit_or-nibble x (v / 2 / 2 / 2 / 2) (omega arith),
)

-- A word with its lowest byte replaced.
pub replace_byte :
    (a v : ℕ)
    → a < 2 ^ 64
    → v < 256
    → bit_or (bit_and a 0xffff_ffff_ffff_ff00) v ≡ a / 256 * 256 + v
replace_byte a v h l = rw (bit_and-clear_byte a h) (bit_or-byte (a / 256) v l)

-- `(x & 0xffffffffffffff00) | 0xcc`
pub patch_byte :
    (a : ℕ) → a < 2 ^ 64 → bit_or (bit_and a 0xffff_ffff_ffff_ff00) 0xcc ≡ a / 256 * 256 + 0xcc
patch_byte a h = replace_byte a 0xcc h (omega arith)
