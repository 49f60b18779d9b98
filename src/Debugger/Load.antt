-- ===== src/Debugger/Load.antt =====
-- `load`: reads the ELF header, the string table and the section header of .text.
use nctu_unixprog.Base.{
  ℕ, zero, suc, ◌+◌, ◌*◌, ◌%◌, ◌^◌, Bool, true, false, Option, none, some, List, [], ◌∷◌, ◌&&◌,
  ◌==◌, ltb, if◌then◌else◌, codes, length, get_or, take, drop,
}
use nctu_unixprog.Stream.{hex, put, put_text, put_number, set_radix}
use nctu_unixprog.Debugger.Os.{Os}
use nctu_unixprog.Debugger.State.{
  M, Elf, Mode, loaded, ◌>>=◌, ◌>>◌, get, modify, undefined_behaviour, write_cout, say, error,
}
use nctu_unixprog.Debugger.Elf.{
  e_entry, e_shoff, e_shnum, e_shstrndx, sh_name, sh_offset, sh_size, header_size, fread_into,
}

-- Up to `n` bytes of the file from a position.
unfoldable pub read_at : List ℕ → ℕ → ℕ → List ℕ
read_at file pos n = take n (drop pos file)

-- `fseek(fp, offset, SEEK_SET)`: a negative offset fails and leaves the position.
unfoldable pub seek : ℕ → ℕ → ℕ
seek pos offset = if ltb offset (2 ^ 63) then offset else pos

-- The same with an offset that was stored in an int.
unfoldable pub seek_int : ℕ → ℕ → ℕ
seek_int pos offset = if ltb (offset % 2 ^ 32) (2 ^ 31) then offset % 2 ^ 32 else pos

-- `strcmp(s, target)==0`; `none` where it reads past what is known of the memory behind `s`.
unfoldable pub strcmp_eq : List ℕ → List ℕ → Option Bool
strcmp_eq [] target = none
strcmp_eq (c ∷ cs) [] = some (c == 0)
strcmp_eq (c ∷ cs) (t ∷ ts) = let rest = strcmp_eq cs ts in if c == t then rest else some false

-- How the search for .text ends: its header, no such section, or a read outside the string table.
pub data Search : Type 0 where
  found : List ℕ → Search
  missing : Search
  outside : Search

unfoldable pub found_or : List ℕ → Option Bool → Search → Search
found_or shdr none rest = outside
found_or shdr (some true) rest = found shdr
found_or shdr (some false) rest = rest

-- The loop over the section headers, from a file position and with the last header read.
unfoldable pub find_text : List ℕ → List ℕ → ℕ → ℕ → List ℕ → Search
unfolding found_or
find_text file str_tab zero pos tmp = missing
find_text file str_tab (suc n) pos tmp =
    let bytes = read_at file pos header_size in
    let shdr = fread_into bytes tmp in
    found_or shdr (strcmp_eq (drop (sh_name shdr) str_tab) (codes ".text"))
      (find_text file str_tab n (pos + length bytes) shdr)

-- `e_ident` has the magic number, and its class is ELFCLASS64.
unfoldable pub is_elf : List ℕ → Bool
is_elf ehdr =
    get_or ehdr 0 0 == 0x7f
    && (get_or ehdr 1 0 == b'E' && (get_or ehdr 2 0 == b'L' && get_or ehdr 3 0 == b'F'))

unfoldable pub is_class64 : List ℕ → Bool
is_class64 ehdr = get_or ehdr 4 0 == 2

-- The string section's header, its table, and where the file stands after each.
unfoldable pub str_position : List ℕ → ℕ → ℕ
str_position ehdr pos = seek_int pos (e_shoff ehdr + e_shstrndx ehdr * header_size)

unfoldable pub read_str_shdr : List ℕ → ℕ → Elf → Elf
read_str_shdr file pos elf = record elf {
  str_shdr = fread_into (read_at file pos header_size) elf.str_shdr;
}

unfoldable pub read_str_tab : List ℕ → ℕ → Elf → Elf
read_str_tab file pos elf = record elf {
  str_tab = some (read_at file (seek pos (sh_offset elf.str_shdr)) (sh_size elf.str_shdr));
}

-- Where `fseek(elf.fp, elf.ehdr.e_shoff, SEEK_SET)` leaves the file, if the offset is negative too.
unfoldable pub sections_position : List ℕ → ℕ → Elf → ℕ
sections_position file pos elf =
    let tab = seek pos (sh_offset elf.str_shdr) in
    seek (tab + length (read_at file tab (sh_size elf.str_shdr))) (e_shoff elf.ehdr)

module _ (os : Os) where
  unfoldable pub finish : List ℕ → M os.World (Unit {0})
  finish path = do
    s ← get
    write_cout (λ o. put 0 "\n" (
        put_number 0 (e_entry s.elf.ehdr) (
          set_radix hex
            (put 0 "' loaded. entry point 0x" (put_text 0 path (put 0 "** program '" o))))))
    modify (λ t. record t { state = loaded })

  -- A file without a section .text is loaded too, with the header of before.
  unfoldable pub found_text : List ℕ → Search → M os.World (Unit {0})
  unfolding finish
  found_text path (found shdr) = do
    modify (λ t. record t { elf = record t.elf { text_shdr = shdr } })
    finish path
  found_text path missing = finish path
  found_text path outside = undefined_behaviour

  -- The two tables of a 64-bit ELF file.
  unfoldable pub load_sections : List ℕ → List ℕ → M os.World (Unit {0})
  unfolding found_text
  load_sections path file = do
    s ← get
    let start = str_position s.elf.ehdr (length (read_at file 0 header_size))
    let elf1 = read_str_shdr file start s.elf
    let pos1 = start + length (read_at file start header_size)
    let elf2 = read_str_tab file pos1 elf1
    modify (λ t. record t { elf = elf2 })
    found_text path (
        find_text file (read_at file (seek pos1 (sh_offset elf1.str_shdr)) (sh_size elf1.str_shdr))
          (e_shnum elf2.ehdr) (sections_position file pos1 elf1) (os.tmp_shdr s.world))

  unfoldable pub load_header : List ℕ → List ℕ → M os.World (Unit {0})
  unfolding load_sections
  load_header path file = do
    modify (λ t. record t {
      elf = record t.elf {
        str_tab = none;
        ehdr = fread_into (read_at file 0 header_size) t.elf.ehdr;
      };
    })
    s ← get
    if is_elf s.elf.ehdr
        then (if is_class64 s.elf.ehdr
            then load_sections path file
            else say "**   Not 64-bits program!\n")
        else say "**   Not ELF file!\n"

  unfoldable pub load_file : List ℕ → Option (List ℕ) → M os.World (Unit {0})
  unfolding load_header
  load_file path none = do
    modify (λ t. record t { elf = record t.elf { str_tab = none } })
    error os "fopen"
  load_file path (some file) = load_header path file

  unfoldable pub load_in : List ℕ → Mode → M os.World (Unit {0})
  unfolding load_file
  load_in path loaded = say "**   The state is already LOADED!\n"
  load_in path _ = do s ← get; load_file path (os.read_file s.world path)

  unfoldable pub load : List ℕ → M os.World (Unit {0})
  unfolding load_in
  load path = do s ← get; load_in path s.state
