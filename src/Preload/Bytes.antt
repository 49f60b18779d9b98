-- ===== src/Preload/Bytes.antt =====
-- The loop of `fread`, `fwrite`, `read` and `write` of project2/share.cpp that prints a buffer.
use nctu_unixprog.Base.{
  ℕ, zero, suc, ◌+◌, ◌-◌, ◌%◌, ◌^◌, Bool, Option, none, some, List, [], ◌∷◌, ◌&&◌, ◌||◌, ltb, leb,
  if◌then◌else◌, get_elem?,
}
use nctu_unixprog.Text.Token.{isprint}
use nctu_unixprog.Run.{M, ◌>>◌, pure, undefined_behaviour}
use nctu_unixprog.Preload.Libc.{Preload, dprintf, put_char}

unfoldable pub shown : ℕ → ℕ
shown c = if isprint c then c else b'.'

-- The int `i`, from its 32 bits, as an unsigned long.
unfoldable pub widen : ℕ → ℕ
widen i = if ltb i (2 ^ 31) then i else i + (2 ^ 64 - 2 ^ 32)

-- `i<count && i<PRINT_SIZE && i<result`; a negative `i` is below PRINT_SIZE.
unfoldable pub goes_on : ℕ → ℕ → ℕ → Bool
goes_on count result i =
    ltb (widen i) count && ((ltb i 32 || leb (2 ^ 31) i) && ltb (widen i) result)

-- A byte out of the buffer has no defined value.
unfoldable pub print_byte : {W : Type 0} → ℕ → Option ℕ → M (Preload W) (Unit {0})
print_byte out none = undefined_behaviour
print_byte out (some c) = dprintf out (put_char (shown c) ∷ [])

module _ {W : Type 0} (out : ℕ) (buf : List ℕ) (count result step : ℕ) where
  -- On fuel: a step that is a multiple of 2^32 never ends.
  unfoldable pub print_from : ℕ → ℕ → M (Preload W) (Unit {0})
  print_from zero i = undefined_behaviour
  print_from (suc fuel) i =
      let rest = print_from fuel ((i + step) % 2 ^ 32) in
      if goes_on count result i then (print_byte out (get_elem? buf (widen i)) >> rest) else pure tt

  -- At most 32 bytes, and the test that ends the loop.
  unfoldable pub print_bytes : M (Preload W) (Unit {0})
  print_bytes = print_from 33 0

-- `i<result` where result is an ssize_t.
unfoldable pub signed_bound : ℕ → ℕ
signed_bound r = if ltb r (2 ^ 63) then r else 0
