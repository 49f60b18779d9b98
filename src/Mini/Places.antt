-- ===== src/Mini/Places.antt =====
-- The binary digits of a word, by place.
use Prim.Native.Nat.{bit_and, bit_or, bit_and-bitwise, min, max}
use native.Mathlib.Nat.{div-div-eq-div-mul}
use nctu_unixprog.Base.{
  ℕ, zero, suc, ◌-◌, ◌*◌, ◌/◌, ◌%◌, ◌^◌, ◌<◌, ◌≡◌, refl, ap, sym, ◌∙◌, ◌==◌, if◌then◌else◌, arith,
}
use nctu_unixprog.Base.Bits.{bit_and-digit, bit_or-digit}

abbrev pub bit_at : ℕ → ℕ → ℕ
bit_at zero x = x % 2
bit_at (suc j) x = bit_at j (x / 2)

pub bit_at-or : (j a b : ℕ) → bit_at j (bit_or a b) ≡ max (bit_at j a) (bit_at j b)
bit_at-or zero a b = omega (arith, bit_or-digit a b)
bit_at-or (suc j) a b =
    let h : bit_or a b / 2 ≡ bit_or (a / 2) (b / 2) = omega (arith, bit_or-digit a b) in
    ap (bit_at j) h ∙ bit_at-or j (a / 2) (b / 2)

pub bit_at-and : (j a b : ℕ) → bit_at j (bit_and a b) ≡ min (bit_at j a) (bit_at j b)
bit_at-and zero a b = omega (arith, bit_and-digit a b)
bit_at-and (suc j) a b =
    let h : bit_and a b / 2 ≡ bit_and (a / 2) (b / 2) = omega (arith, bit_and-digit a b) in
    ap (bit_at j) h ∙ bit_at-and j (a / 2) (b / 2)

pub bit_at-nothing : (j : ℕ) → bit_at j 0 ≡ 0
bit_at-nothing zero = refl
bit_at-nothing (suc j) = bit_at-nothing j

pub bit_at-pow : (j k : ℕ) → bit_at j (2 ^ k) ≡ (if j == k then 1 else 0)
bit_at-pow zero zero = refl
bit_at-pow zero (suc k) = let p : 2 ^ suc k % 2 ≡ 0 = omega arith in ground arith
bit_at-pow (suc j) zero = bit_at-nothing j ∙ ground arith
bit_at-pow (suc j) (suc k) =
    let h : 2 ^ suc k / 2 ≡ 2 ^ k = omega arith in ap (bit_at j) h ∙ bit_at-pow j k ∙ ground arith

-- The complement of a word of n bits.
pub bit_at-complement : (n j x : ℕ) → j < n → x < 2 ^ n → bit_at j (2 ^ n - 1 - x) ≡ 1 - bit_at j x
bit_at-complement zero j x h l = absurd (omega arith)
bit_at-complement (suc n) zero x h l = omega arith
bit_at-complement (suc n) (suc j) x h l =
    let e : (2 ^ suc n - 1 - x) / 2 ≡ 2 ^ n - 1 - x / 2 = omega arith in
    ap (bit_at j) e ∙ bit_at-complement n j (x / 2) (omega arith) (omega arith)

pub bit_at-shift : (j x : ℕ) → x / 2 ^ j % 2 ≡ bit_at j x
bit_at-shift zero x = omega arith
bit_at-shift (suc j) x =
    let p : 2 ^ suc j ≡ 2 * 2 ^ j = omega arith in
    let e : x / 2 ^ suc j ≡ x / 2 / 2 ^ j =
      ap (λ m. x / m) p ∙ sym (div-div-eq-div-mul x 2 (2 ^ j)) in
    ap (λ y. y % 2) e ∙ bit_at-shift j (x / 2)

pub bit_and-one : (x : ℕ) → bit_and 1 x ≡ x % 2
bit_and-one x = omega (arith, bit_and-digit 1 x, bit_and-bitwise 0 (x / 2))
