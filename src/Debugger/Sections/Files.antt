-- ===== src/Debugger/Sections/Files.antt =====
-- `load` of project4/hw4.cpp on a 64-bit ELF file that is whole.
use nctu_unixprog.Base.{
  arith, ℕ, ◌+◌, ◌*◌, ◌%◌, ◌≤◌, ◌<◌, ◌^◌, ◌≡◌, ◌≢◌, refl, sym, ◌∙◌, true, false, some, List, length,
}
use nctu_unixprog.Stream.{Ostream, hex, put, put_text, put_number, set_radix}
use nctu_unixprog.Debugger.Os.{Os}
use nctu_unixprog.Debugger.State.{Sdb, nonload, loaded, ok, ◌>>=◌, ◌>>◌, get, modify, write_cout}
use nctu_unixprog.Debugger.Elf.{
  header_size, e_entry, e_shoff, e_shnum, e_shstrndx, sh_offset, sh_size, fread_into,
}
use nctu_unixprog.Debugger.Load.{
  Search, missing, outside, found, find_text, read_at, seek, seek_int, is_elf, is_class64,
  str_position, read_str_shdr, read_str_tab, sections_position, finish, found_text, load_sections,
  load_header, load_file, load_in, load,
}
use nctu_unixprog.Debugger.Sections.{
  named, find_text-first, find_text-missing, fread_into-whole, length-read_at,
}

abbrev pub elf_header : List ℕ → List ℕ
elf_header file = read_at file 0 header_size

-- Section header number k, and the section that holds the names.
abbrev pub section : List ℕ → ℕ → List ℕ
section file k = read_at file (e_shoff (elf_header file) + k * 64) header_size

abbrev pub names_header : List ℕ → List ℕ
names_header file =
    read_at file (e_shoff (elf_header file) + e_shstrndx (elf_header file) * 64) header_size

abbrev pub names : List ℕ → List ℕ
names file = read_at file (sh_offset (names_header file)) (sh_size (names_header file))

-- A 64-bit ELF file below 2 GiB with its section headers in it.
pub record IsWhole (file : List ℕ) : Type 0 where
  pub has_magic : is_elf (elf_header file) ≡ true
  pub has_class : is_class64 (elf_header file) ≡ true
  pub has_header : header_size ≤ length file
  pub has_sections : e_shoff (elf_header file) + e_shnum (elf_header file) * 64 ≤ length file
  pub has_names : e_shstrndx (elf_header file) < e_shnum (elf_header file)
  pub names_place : sh_offset (names_header file) < 2 ^ 63
  pub is_short : length file < 2 ^ 31

-- Section number k is named .text, and none before it is.
pub record IsFirstText (file : List ℕ) (k : ℕ) : Type 0 where
  pub text_index : k < e_shnum (elf_header file)
  pub text_name : named file (names file) (e_shoff (elf_header file)) k ≡ some true
  pub text_first :
      (j : ℕ) → j < k → named file (names file) (e_shoff (elf_header file)) j ≡ some false

abbrev pub show_loaded : List ℕ → List ℕ → Ostream → Ostream
show_loaded path file o = put 0 "\n" (
    put_number 0 (e_entry (elf_header file))
      (set_radix hex (put 0 "' loaded. entry point 0x" (put_text 0 path (put 0 "** program '" o)))))

seek-lt : (pos n : ℕ) → n < 2 ^ 63 → seek pos n ≡ n
unfolding seek
seek-lt pos n h = ground arith

seek_int-lt : (pos n : ℕ) → n < 2 ^ 31 → seek_int pos n ≡ n
unfolding seek_int
seek_int-lt pos n h = let same : n % 2 ^ 32 ≡ n = omega arith in rw same (ground arith)

-- The state with a file loaded, whose section .text has the header that is given.
abbrev pub loaded_with : {W : Type 0} → List ℕ → List ℕ → List ℕ → Sdb W → Sdb W
loaded_with path file shdr s = record s {
  state = loaded;
  elf = record {
    ehdr = elf_header file;
    str_shdr = names_header file;
    str_tab = some (names file);
    text_shdr = shdr;
  };
  cout = show_loaded path file s.cout;
}

abbrev text_of : Search → List ℕ → List ℕ
text_of (found shdr) old = shdr
text_of missing old = old
text_of outside old = old

abbrev search_of : List ℕ → List ℕ → Search
search_of file tmp =
    find_text file (names file) (e_shnum (elf_header file)) (e_shoff (elf_header file)) tmp

module _ (os : Os) (path file : List ℕ) (whole : IsWhole file) where
  names_start :
      (pos : ℕ)
      → str_position (elf_header file) pos
        ≡ e_shoff (elf_header file) + e_shstrndx (elf_header file) * 64
  unfolding str_position
  names_start pos =
      seek_int-lt pos _ (omega (arith, whole.has_sections, whole.has_names, whole.is_short))

  found_text-ends :
      (r : Search) (s : Sdb os.World)
      → r ≢ outside
      → found_text os path r (record s {
        elf = record {
          ehdr = elf_header file;
          str_shdr = names_header file;
          str_tab = some (names file);
          text_shdr = s.elf.text_shdr;
        };
      })
        ≡ ok tt (loaded_with path file (text_of r s.elf.text_shdr) s)
  unfolding found_text finish get modify write_cout ◌>>=◌ ◌>>◌
  found_text-ends (found shdr) s n = refl
  found_text-ends missing s n = refl
  found_text-ends outside s n = absurd (n refl)

  load_sections-ends :
      (r : Search) (s : Sdb os.World)
      → r ≢ outside
      → search_of file (os.tmp_shdr s.world) ≡ r
      → s.elf.ehdr ≡ elf_header file
      → length s.elf.str_shdr ≡ 64
      → load_sections os path file s ≡ ok tt (loaded_with path file (text_of r s.elf.text_shdr) s)
  unfolding load_sections read_str_shdr read_str_tab sections_position get modify ◌>>=◌ ◌>>◌
  load_sections-ends r s n q e l =
      let complete : fread_into (names_header file) s.elf.str_shdr ≡ names_header file =
        fread_into-whole _ _
          (length-read_at file _ 64 (omega (arith, whole.has_sections, whole.has_names)) ∙ sym l) in
      let start : (pos : ℕ) → seek pos (e_shoff (elf_header file)) ≡ e_shoff (elf_header file) =
        λ pos. seek-lt pos _ (omega (arith, whole.has_sections, whole.is_short)) in
      rw e (
        rw (names_start _) (
          rw complete
            (rw (seek-lt _ _ whole.names_place) (rw (start _) (rw q (found_text-ends r s n))))))

  load-ends :
      (r : Search) (s : Sdb os.World)
      → r ≢ outside
      → search_of file (os.tmp_shdr s.world) ≡ r
      → s.state ≡ nonload
      → os.read_file s.world path ≡ some file
      → length s.elf.ehdr ≡ 64
      → length s.elf.str_shdr ≡ 64
      → load os path s ≡ ok tt (loaded_with path file (text_of r s.elf.text_shdr) s)
  unfolding load load_in load_file load_header get modify ◌>>=◌ ◌>>◌
  load-ends r s n q m f l k =
      let complete : fread_into (elf_header file) s.elf.ehdr ≡ elf_header file =
        fread_into-whole _ _ (length-read_at file 0 64 (omega (arith, whole.has_header)) ∙ sym l) in
      rw (m, load_in)
        (rw (f, load_file)
          (rw complete
            (rw whole.has_magic (rw whole.has_class (load_sections-ends r _ n q refl k)))))

  -- `load` in NONLOAD of a readable 64-bit ELF file below 2 GiB that holds all its section headers: the
  -- first section that is named .text is the one that `intext` and `disasm` work with from then on, the
  -- state is LOADED, and the entry point is printed. The buffers have the size of a header.
  pub load-finds :
      (k : ℕ) (s : Sdb os.World)
      → IsFirstText file k
      → length (os.tmp_shdr s.world) ≡ 64
      → s.state ≡ nonload
      → os.read_file s.world path ≡ some file
      → length s.elf.ehdr ≡ 64
      → length s.elf.str_shdr ≡ 64
      → load os path s ≡ ok tt (loaded_with path file (section file k) s)
  load-finds k s first b =
      load-ends (found (section file k)) s (λ e. cc)
        (find_text-first file (names file) _ _ k (os.tmp_shdr s.world) b whole.has_sections
          first.text_index first.text_first first.text_name)

  -- `load` in NONLOAD of a readable 64-bit ELF file below 2 GiB that holds all its section headers, none
  -- of which is named .text: it is loaded too, and `intext` and `disasm` keep the section header of
  -- before. The buffers have the size of a header.
  pub load-without_text :
      (s : Sdb os.World)
      → ((j : ℕ)
          → j < e_shnum (elf_header file)
          → named file (names file) (e_shoff (elf_header file)) j ≡ some false)
      → length (os.tmp_shdr s.world) ≡ 64
      → s.state ≡ nonload
      → os.read_file s.world path ≡ some file
      → length s.elf.ehdr ≡ 64
      → length s.elf.str_shdr ≡ 64
      → load os path s ≡ ok tt (loaded_with path file s.elf.text_shdr s)
  load-without_text s none_named b =
      load-ends missing s (λ e. cc)
        (find_text-missing file (names file) _ _ (os.tmp_shdr s.world) b whole.has_sections
          none_named)
