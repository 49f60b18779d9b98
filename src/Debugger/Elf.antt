-- ===== src/Debugger/Elf.antt =====
-- The ELF headers as the bytes that `fread` left, and `intext`.
use nctu_unixprog.Base.{
  ℕ, ◌+◌, ◌*◌, ◌%◌, ◌^◌, Bool, ◌&&◌, List, [], ◌∷◌, ◌++◌, leb, length, take, drop, replicate,
}
use nctu_unixprog.Debugger.State.{Elf}

-- A little-endian number.
unfoldable pub little_endian : List ℕ → ℕ
little_endian [] = 0
little_endian (b ∷ bs) = b + 256 * little_endian bs

-- A field of a packed struct: its offset and its size.
unfoldable pub struct_field : ℕ → ℕ → List ℕ → ℕ
unfolding little_endian
struct_field offset size buffer = little_endian (take size (drop offset buffer))

-- Elf64_Ehdr
abbrev pub e_entry : List ℕ → ℕ
e_entry = struct_field 24 8

abbrev pub e_shoff : List ℕ → ℕ
e_shoff = struct_field 40 8

abbrev pub e_shnum : List ℕ → ℕ
e_shnum = struct_field 60 2

abbrev pub e_shstrndx : List ℕ → ℕ
e_shstrndx = struct_field 62 2

-- Elf64_Shdr
abbrev pub sh_name : List ℕ → ℕ
sh_name = struct_field 0 4

abbrev pub sh_addr : List ℕ → ℕ
sh_addr = struct_field 16 8

abbrev pub sh_offset : List ℕ → ℕ
sh_offset = struct_field 24 8

abbrev pub sh_size : List ℕ → ℕ
sh_size = struct_field 32 8

-- `sizeof(Elf64_Ehdr)` and `sizeof(Elf64_Shdr)`
abbrev pub header_size : ℕ
header_size = 64

-- `fread(&buffer, 1, sizeof buffer, fp)`: a short read leaves the rest of the buffer as it was.
unfoldable pub fread_into : List ℕ → List ℕ → List ℕ
fread_into bytes buffer = bytes ++ drop (length bytes) buffer

-- The globals before the first load are zero.
abbrev pub zero_header : List ℕ
zero_header = replicate header_size 0

-- The sum wraps at 64 bits, and the end of the section counts as inside.
unfoldable pub intext : Elf → ℕ → Bool
intext elf addr =
    leb (sh_addr elf.text_shdr) addr
    && leb addr ((sh_addr elf.text_shdr + sh_size elf.text_shdr) % 2 ^ 64)
