-- ===== src/Debugger/Tests/Loads.antt =====
-- `load` of the ELF file of the small kernel.
use nctu_unixprog.Base.{
  arith, ℕ, zero, suc, ◌<◌, ◌≡◌, refl, false, some, List, [], ◌∷◌, ◌++◌, take, codes,
}
use nctu_unixprog.Debugger.Os.{Os}
use nctu_unixprog.Debugger.Sections.{named}
use nctu_unixprog.Debugger.State.{nonload, Sdb, ok}
use nctu_unixprog.Debugger.Elf.{e_shnum, e_shoff, struct_field, little_endian}
use nctu_unixprog.Debugger.Load.{load, is_elf, is_class64, read_at, strcmp_eq}
use nctu_unixprog.Debugger.Sections.Files.{
  IsWhole, IsFirstText, load-finds, load-without_text, loaded_with, elf_header, section, names,
}
use nctu_unixprog.Debugger.Tests.{toy, toy_state, elf_file}

elf_file-IsWhole : IsWhole elf_file
unfolding is_elf is_class64 struct_field little_endian read_at
elf_file-IsWhole = record {
  has_magic = refl;
  has_class = refl;
  has_header = omega arith;
  has_sections = omega arith;
  has_names = omega arith;
  names_place = omega arith;
  is_short = omega arith;
}

elf_file-IsFirstText : IsFirstText elf_file 0
unfolding struct_field little_endian read_at strcmp_eq
elf_file-IsFirstText = record {
  text_index = omega arith;
  text_name = refl;
  text_first = λ j l. absurd (omega arith);
}

abbrev empty : Sdb toy.World
empty = toy_state nonload 0 [] 0x1000 4991

load-finds_example :
    load toy (codes "a") empty ≡ ok tt (loaded_with (codes "a") elf_file (section elf_file 0) empty)
load-finds_example =
    load-finds toy (codes "a") elf_file elf_file-IsWhole 0 empty elf_file-IsFirstText refl refl refl
      refl refl

-- The file with another name for its section, and a kernel that has it.
abbrev data_file : List ℕ
data_file = take 128 elf_file ++ (codes ".data" ++ (0 ∷ []))

abbrev data_toy : Os
data_toy = record toy { read_file = λ w path. some data_file }

data_file-IsWhole : IsWhole data_file
unfolding is_elf is_class64 struct_field little_endian read_at
data_file-IsWhole = record {
  has_magic = refl;
  has_class = refl;
  has_header = omega arith;
  has_sections = omega arith;
  has_names = omega arith;
  names_place = omega arith;
  is_short = omega arith;
}

no_text :
    (j : ℕ)
    → j < e_shnum (elf_header data_file)
    → named data_file (names data_file) (e_shoff (elf_header data_file)) j ≡ some false
unfolding struct_field little_endian read_at strcmp_eq
no_text zero h = refl
no_text (suc j) h = absurd (omega arith)

load-without_text_example :
    load data_toy (codes "a") empty
    ≡ ok tt (loaded_with (codes "a") data_file empty.elf.text_shdr empty)
load-without_text_example =
    load-without_text data_toy (codes "a") data_file data_file-IsWhole empty no_text refl refl refl
      refl refl
