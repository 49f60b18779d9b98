-- ===== src/Text/Number.antt =====
-- `strtoul(s, NULL, 16)` and `atoi`.
use nctu_unixprog.Base.{
  ℕ, ◌+◌, ◌-◌, ◌*◌, ◌%◌, ◌^◌, Bool, true, false, Option, none, some, List, [], ◌∷◌, ◌||◌, ◌&&◌,
  ◌==◌, leb, ltb, if◌then◌else◌,
}
use nctu_unixprog.Text.Token.{skip, isspace}

-- The value of a digit or letter.
unfoldable pub digit_value : ℕ → Option ℕ
digit_value c =
    if leb b'0' c && leb c b'9'
    then some (c - b'0')
    else if leb b'a' c && leb c b'z'
    then some (c - b'a' + 10)
    else if leb b'A' c && leb c b'Z'
    then some (c - b'A' + 10)
    else none

digit_in : ℕ → Option ℕ → Option ℕ
digit_in base none = none
digit_in base (some d) = if ltb d base then some d else none

-- The longest run of digits of the base, as an unbounded number.
unfoldable pub scan : ℕ → ℕ → List ℕ → ℕ
unfolding digit_value digit_in
scan base acc [] = acc
scan base acc (c ∷ cs) = elim (digit_in base (digit_value c)) [
  | none ↦ acc
  | some d ↦ scan base (acc * base + d) cs
]

-- A sign, and whether it was a minus.
unfoldable pub sign : List ℕ → Bool × List ℕ
sign [] = (false, [])
sign (c ∷ cs) = if c == b'-' then (true, cs) else if c == b'+' then (false, cs) else (false, c ∷ cs)

-- `0x` or `0X`.
unfoldable pub hex_prefix : List ℕ → List ℕ
hex_prefix (z ∷ x ∷ cs) = if z == b'0' && (x == b'x' || x == b'X') then cs else z ∷ x ∷ cs
hex_prefix cs = cs

-- A value beyond an unsigned long is ULONG_MAX; a minus negates modulo 2^64.
unfoldable pub strtoul_value : Bool → ℕ → ℕ
strtoul_value minus n =
    if leb (2 ^ 64) n then 2 ^ 64 - 1 else if minus then (2 ^ 64 - n) % 2 ^ 64 else n

unfoldable pub strtoul16 : List ℕ → ℕ
unfolding scan sign hex_prefix strtoul_value
strtoul16 s =
    let (minus, digits) = sign (skip isspace s) in
    strtoul_value minus (scan 16 0 (hex_prefix digits))

-- `(int) strtol(s, NULL, 10)` as 32 bits: a long is capped first, and then cut.
unfoldable pub strtol_bits : Bool → ℕ → ℕ
strtol_bits true n = if leb (2 ^ 63) n then 0 else (2 ^ 64 - n) % 2 ^ 32
strtol_bits false n = if leb (2 ^ 63) n then 2 ^ 32 - 1 else n % 2 ^ 32

unfoldable pub atoi : List ℕ → ℕ
unfolding scan sign strtol_bits
atoi s = let (minus, digits) = sign (skip isspace s) in strtol_bits minus (scan 10 0 digits)
