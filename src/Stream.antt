-- ===== src/Stream.antt =====
-- std::ostream as the sources use it: the flags that stay (radix, adjustment, fill), the width that
-- holds for one item, and what was written. Used for cout and cerr of project4/hw4.cpp.
use nctu_unixprog.Base.{
  ℕ, zero, suc, ◌+◌, ◌-◌, ◌/◌, ◌%◌, ◌^◌, String, Bool, true, false, List, [], ◌∷◌, ◌++◌, ltb,
  if◌then◌else◌, codes, length, replicate,
}

-- `hex` and `dec`.
pub data Radix : Type 0 where
  dec hex : Radix

-- One formatted output: width, left-adjusted or not, fill character, and what is put.
pub data Item : Type 0 where
  literal : ℕ → Bool → ℕ → String → Item
  text : ℕ → Bool → ℕ → List ℕ → Item
  number : ℕ → Bool → ℕ → Radix → ℕ → Item

-- `items` is newest first.
pub record Ostream : Type 0 where
  pub radix : Radix
  pub left : Bool
  pub fill : ℕ
  pub items : List Item

abbrev pub fresh_stream : Ostream
fresh_stream = record { radix = dec; left = false; fill = b' '; items = [] }

-- `out << setw(width) << "literal"`; a width of 0 is the default.
abbrev pub put : ℕ → String → Ostream → Ostream
put width s o = record o { items = literal width o.left o.fill s ∷ o.items }

abbrev pub put_text : ℕ → List ℕ → Ostream → Ostream
put_text width t o = record o { items = text width o.left o.fill t ∷ o.items }

abbrev pub put_number : ℕ → ℕ → Ostream → Ostream
put_number width n o = record o { items = number width o.left o.fill o.radix n ∷ o.items }

abbrev pub set_radix : Radix → Ostream → Ostream
set_radix r o = record o { radix = r }

abbrev pub set_left : Bool → Ostream → Ostream
set_left b o = record o { left = b }

abbrev pub set_fill : ℕ → Ostream → Ostream
set_fill c o = record o { fill = c }

abbrev radix_value : Radix → ℕ
radix_value dec = 10
radix_value hex = 16

unfoldable pub digit_char : ℕ → ℕ
digit_char d = if ltb d 10 then b'0' + d else b'a' + (d - 10)

-- The digits of a number, most significant first, on fuel for their count.
unfoldable pub show_digits : ℕ → ℕ → ℕ → List ℕ
unfolding digit_char
show_digits zero base n = []
show_digits (suc fuel) base n =
    let higher = show_digits fuel base (n / base) in
    if ltb n base then digit_char n ∷ [] else higher ++ (digit_char (n % base) ∷ [])

-- An unsigned number of at most 64 bits has at most 64 digits.
unfoldable pub show_number : Radix → ℕ → List ℕ
unfolding show_digits
show_number r n = show_digits 64 (radix_value r) n

-- `%d` of an int, from its 32 bits.
unfoldable pub show_int : ℕ → List ℕ
show_int n = if ltb n (2 ^ 31) then show_number dec n else b'-' ∷ show_number dec (2 ^ 32 - n)

pad : ℕ → Bool → ℕ → List ℕ → List ℕ
pad width true fill t = t ++ replicate (width - length t) fill
pad width false fill t = replicate (width - length t) fill ++ t

-- The bytes that an item writes.
unfoldable pub render : Item → List ℕ
unfolding pad show_number
render (literal width left fill s) = pad width left fill (codes s)
render (text width left fill t) = pad width left fill t
render (number width left fill r n) = pad width left fill (show_number r n)
