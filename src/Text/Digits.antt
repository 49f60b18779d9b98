-- ===== src/Text/Digits.antt =====
-- A number that is written in hexadecimal reads back.
use nctu_unixprog.Base.{
  arith, ℕ, zero, suc, ◌+◌, ◌*◌, ◌/◌, ◌%◌, ◌<◌, ◌^◌, ◌≡◌, refl, ap, ◌∙◌, inl, inr, false,
  Bool-cases, List, [], ◌∷◌, ◌++◌, ltb, All,
}
use nctu_unixprog.Stream.{hex, digit_char, show_digits, show_number}
use nctu_unixprog.Text.Token.{isspace, skip}
use nctu_unixprog.Text.Number.{scan, sign, hex_prefix, strtoul_value, strtoul16}

-- The character of a hexadecimal digit.
abbrev pub IsDigit : ℕ → Type 0
IsDigit c = (d : ℕ) × (d < 16) × (c ≡ digit_char d)

scan-digit :
    (d acc : ℕ) (xs : List ℕ) → d < 16 → scan 16 acc (digit_char d ∷ xs) ≡ scan 16 (acc * 16 + d) xs
unfolding scan digit_char
scan-digit d acc xs h = ground arith

scan-append :
    (xs : List ℕ) (acc d : ℕ)
    → All IsDigit xs
    → d < 16
    → scan 16 acc (xs ++ digit_char d ∷ []) ≡ scan 16 acc xs * 16 + d
unfolding scan
scan-append [] acc d h l = scan-digit d acc [] l
scan-append (x ∷ xs) acc d ((e, b, q), h) l = rw q (
    rw (scan-digit e acc (xs ++ digit_char d ∷ []) b, scan-digit e acc xs b)
      (scan-append xs (acc * 16 + e) d h l))

pub digits-append : (xs ys : List ℕ) → All IsDigit xs → All IsDigit ys → All IsDigit (xs ++ ys)
digits-append [] ys h k = k
digits-append (x ∷ xs) ys (p, h) k = (p, digits-append xs ys h k)

pub show_digits-IsDigit : (fuel n : ℕ) → All IsDigit (show_digits fuel 16 n)
unfolding show_digits
show_digits-IsDigit zero n = tt
show_digits-IsDigit (suc fuel) n = elim (Bool-cases (ltb n 16)) [
  | inl e ↦ rw e ((n, ground arith, refl), tt)
  | inr e ↦ rw e (
      digits-append (show_digits fuel 16 (n / 16)) _ (show_digits-IsDigit fuel (n / 16))
        ((n % 16, omega arith, refl), tt))
]

scan_nil : (acc : ℕ) → scan 16 acc [] ≡ acc
unfolding scan
scan_nil acc = refl

scan-show_digits : (fuel n : ℕ) → n < 16 ^ fuel → scan 16 0 (show_digits fuel 16 n) ≡ n
unfolding show_digits
scan-show_digits zero n h = scan_nil 0 ∙ omega arith
scan-show_digits (suc fuel) n h = elim (Bool-cases (ltb n 16)) [
  | inl e ↦ rw e (scan-digit n 0 [] (ground arith) ∙ (scan_nil _ ∙ omega arith))
  | inr e ↦ rw e (
      scan-append (show_digits fuel 16 (n / 16)) 0 (n % 16) (show_digits-IsDigit fuel (n / 16))
        (omega arith)
      ∙ (rw (scan-show_digits fuel (n / 16) (omega arith)) (omega arith)))
]

-- Digits are neither spaces, signs nor a prefix.
pub skip_digits : (xs : List ℕ) → All IsDigit xs → skip isspace xs ≡ xs
unfolding skip isspace digit_char
skip_digits [] h = refl
skip_digits (x ∷ xs) ((d, b, q), h) = rw q (ground arith)

pub sign_digits : (xs : List ℕ) → All IsDigit xs → sign xs ≡ (false, xs)
unfolding sign digit_char
sign_digits [] h = refl
sign_digits (x ∷ xs) ((d, b, q), h) = rw q (ground arith)

prefix_digits : (xs : List ℕ) → All IsDigit xs → hex_prefix xs ≡ xs
unfolding hex_prefix digit_char
prefix_digits [] h = refl
prefix_digits (x ∷ []) h = refl
prefix_digits (x ∷ y ∷ xs) (p, ((d, b, q), h)) = rw q (ground arith)

pub show_digits-nonempty :
    (fuel n : ℕ) → (c : ℕ) × (cs : List ℕ) × (show_digits (suc fuel) 16 n ≡ c ∷ cs)
unfolding show_digits
show_digits-nonempty fuel n = elim (Bool-cases (ltb n 16)) [
  | inl e ↦ (digit_char n, [], rw e refl)
  | inr e ↦ front (show_digits fuel 16 (n / 16)) (rw e refl)
]
  where
    front :
        (xs : List ℕ)
        → show_digits (suc fuel) 16 n ≡ xs ++ (digit_char (n % 16) ∷ [])
        → (c : ℕ) × (cs : List ℕ) × (show_digits (suc fuel) 16 n ≡ c ∷ cs)
    front [] e = (digit_char (n % 16), [], e)
    front (x ∷ xs) e = (x, xs ++ (digit_char (n % 16) ∷ []), e)

-- `strtoul` of digits that are the number n.
strtoul16_digits :
    (xs : List ℕ) (n : ℕ) → All IsDigit xs → scan 16 0 xs ≡ n → n < 2 ^ 64 → strtoul16 xs ≡ n
unfolding strtoul16 strtoul_value
strtoul16_digits xs n h e l =
    rw (skip_digits xs h) (rw (sign_digits xs h) (rw (prefix_digits xs h) (rw e (ground arith))))

pub show_number_hex : (n : ℕ) → show_number hex n ≡ show_digits 64 16 n
unfolding show_number
show_number_hex n = refl

pub strtoul16-show_number : (n : ℕ) → n < 2 ^ 64 → strtoul16 (show_number hex n) ≡ n
strtoul16-show_number n h =
    ap strtoul16 (show_number_hex n)
    ∙ strtoul16_digits _ n (show_digits-IsDigit 64 n) (scan-show_digits 64 n (omega arith)) h
