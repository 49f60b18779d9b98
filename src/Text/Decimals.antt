-- ===== src/Text/Decimals.antt =====
-- An int that is written in decimal reads back with `atoi`.
use nctu_unixprog.Base.{
  arith, ℕ, zero, suc, ◌+◌, ◌*◌, ◌/◌, ◌%◌, ◌<◌, ◌^◌, ◌≡◌, refl, ap, ◌∙◌, inl, inr, true, false,
  Bool-cases, List, [], ◌∷◌, ◌++◌, ltb, All,
}
use nctu_unixprog.Stream.{dec, digit_char, show_digits, show_number, show_int}
use nctu_unixprog.Text.Number.{scan, strtol_bits, atoi}
use nctu_unixprog.Text.Digits.{IsDigit, skip_digits, sign_digits}

-- The character of a decimal digit.
abbrev IsDecimal : ℕ → Type 0
IsDecimal c = (d : ℕ) × (d < 10) × (c ≡ digit_char d)

All-IsDigit : (xs : List ℕ) → All IsDecimal xs → All IsDigit xs
All-IsDigit [] h = tt
All-IsDigit (x ∷ xs) ((d, b, q), h) = ((d, omega arith, q), All-IsDigit xs h)

scan-decimal :
    (d acc : ℕ) (xs : List ℕ) → d < 10 → scan 10 acc (digit_char d ∷ xs) ≡ scan 10 (acc * 10 + d) xs
unfolding scan digit_char
scan-decimal d acc xs h = ground arith

scan-append :
    (xs : List ℕ) (acc d : ℕ)
    → All IsDecimal xs
    → d < 10
    → scan 10 acc (xs ++ digit_char d ∷ []) ≡ scan 10 acc xs * 10 + d
unfolding scan
scan-append [] acc d h l = scan-decimal d acc [] l
scan-append (x ∷ xs) acc d ((e, b, q), h) l = rw q (
    rw (scan-decimal e acc (xs ++ digit_char d ∷ []) b, scan-decimal e acc xs b)
      (scan-append xs (acc * 10 + e) d h l))

decimals-append : (xs ys : List ℕ) → All IsDecimal xs → All IsDecimal ys → All IsDecimal (xs ++ ys)
decimals-append [] ys h k = k
decimals-append (x ∷ xs) ys (p, h) k = (p, decimals-append xs ys h k)

show_one : (fuel n : ℕ) → ltb n 10 ≡ true → show_digits (suc fuel) 10 n ≡ digit_char n ∷ []
unfolding show_digits digit_char
show_one fuel n e = rw e refl

show_more :
    (fuel n : ℕ)
    → ltb n 10 ≡ false
    → show_digits (suc fuel) 10 n ≡ show_digits fuel 10 (n / 10) ++ (digit_char (n % 10) ∷ [])
unfolding show_digits
show_more fuel n e = rw e refl

show_none : (n : ℕ) → show_digits 0 10 n ≡ []
unfolding show_digits
show_none n = refl

show_digits-IsDecimal : (fuel n : ℕ) → All IsDecimal (show_digits fuel 10 n)
show_digits-IsDecimal zero n = rw (show_none n) tt
show_digits-IsDecimal (suc fuel) n = elim (Bool-cases (ltb n 10)) [
  | inl e ↦ rw (show_one fuel n e) ((n, ground arith, refl), tt)
  | inr e ↦ rw (show_more fuel n e) (
      decimals-append (show_digits fuel 10 (n / 10)) _ (show_digits-IsDecimal fuel (n / 10))
        ((n % 10, omega arith, refl), tt))
]

scan_none : (acc : ℕ) → scan 10 acc [] ≡ acc
unfolding scan
scan_none acc = refl

scan-show_digits : (fuel n : ℕ) → n < 10 ^ fuel → scan 10 0 (show_digits fuel 10 n) ≡ n
scan-show_digits zero n h = rw (show_none n) (scan_none 0 ∙ omega arith)
scan-show_digits (suc fuel) n h = elim (Bool-cases (ltb n 10)) [
  | inl e ↦
      rw (show_one fuel n e) (scan-decimal n 0 [] (ground arith) ∙ (scan_none _ ∙ omega arith))
  | inr e ↦ rw (show_more fuel n e) (
      scan-append (show_digits fuel 10 (n / 10)) 0 (n % 10) (show_digits-IsDecimal fuel (n / 10))
        (omega arith)
      ∙ (rw (scan-show_digits fuel (n / 10) (omega arith)) (omega arith)))
]

atoi_decimals :
    (xs : List ℕ) (n : ℕ) → All IsDecimal xs → scan 10 0 xs ≡ n → n < 2 ^ 31 → atoi xs ≡ n
unfolding atoi strtol_bits
atoi_decimals xs n h e l =
    rw (skip_digits xs (All-IsDigit xs h))
      (rw (sign_digits xs (All-IsDigit xs h)) (rw e (ground arith)))

show_number_dec : (n : ℕ) → show_number dec n ≡ show_digits 64 10 n
unfolding show_number
show_number_dec n = refl

show_int_lem : (n : ℕ) → n < 2 ^ 31 → show_int n ≡ show_number dec n
unfolding show_int
show_int_lem n h = let e : ltb n (2 ^ 31) ≡ true = ground arith in rw e refl

-- An int that is not negative.
pub atoi-show_int : (n : ℕ) → n < 2 ^ 31 → atoi (show_int n) ≡ n
atoi-show_int n h =
    ap atoi (show_int_lem n h ∙ show_number_dec n)
    ∙ atoi_decimals _ n (show_digits-IsDecimal 64 n) (scan-show_digits 64 n (omega arith)) h
