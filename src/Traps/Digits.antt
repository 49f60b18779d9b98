-- ===== src/Traps/Digits.antt =====
-- `to_hex` of CTF/ptrace/no_more_traps/test.cpp on hexadecimal digits.
use nctu_unixprog.Base.{arith, ℕ, ◌+◌, ◌*◌, ◌%◌, ◌^◌, ◌<◌, ◌≡◌, ap, List, ◌∷◌}
use nctu_unixprog.Base.Bits.{bit_or-nibble}
use nctu_unixprog.Stream.{digit_char}
use nctu_unixprog.Traps.{to_hex, next_hex, fgetc}

to_hex-digit_char : (d : ℕ) → d < 16 → to_hex (digit_char d) ≡ d
unfolding to_hex digit_char
to_hex-digit_char d h = ground arith

-- Two digits are the byte that they show.
pub next_hex-digits :
    (d e : ℕ) (rest : List ℕ)
    → d < 16
    → e < 16
    → next_hex (digit_char d ∷ digit_char e ∷ rest) ≡ (d * 16 + e, rest)
unfolding next_hex fgetc
next_hex-digits d e rest h k =
    let room : d * 16 % 2 ^ 64 ≡ d * 16 = omega arith in
    rw (to_hex-digit_char d h)
      (rw (to_hex-digit_char e k) (rw room (ap (λ b. (b, rest)) (bit_or-nibble d e k))))
