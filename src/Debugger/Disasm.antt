-- ===== src/Debugger/Disasm.antt =====
-- `getcode` and `disasm`.
use nctu_unixprog.Base.{
  ℕ, ◌+◌, ◌-◌, ◌/◌, ◌%◌, ◌^◌, true, false, not, Option, none, some, List, [], ◌∷◌, ◌==◌, ◌||◌, ltb,
  if◌then◌else◌, length, drop,
}
use nctu_unixprog.Stream.{Ostream, hex, put, put_text, put_number, set_radix, set_left, digit_char}
use nctu_unixprog.Debugger.Os.{Os, Insn}
use nctu_unixprog.Debugger.State.{
  M, ◌>>=◌, ◌>>◌, pure, get, modify, undefined_behaviour, write_cerr, say, error, when_running,
}
use nctu_unixprog.Debugger.Elf.{sh_addr, sh_offset, intext}

abbrev pub disasm_max : ℕ
disasm_max = 10

-- `snprintf(&bits[j*3], 4, "%2.2x ", bytes[j])` over the bytes of an instruction.
unfoldable pub hex_bytes : List ℕ → List ℕ
hex_bytes [] = []
hex_bytes (b ∷ bs) = digit_char (b / 16) ∷ digit_char (b % 16) ∷ b' ' ∷ hex_bytes bs

unfoldable pub show_insn : Insn → Ostream → Ostream
show_insn i o = put 0 "\n" (
    put 7 i.op_str (
      set_left true (
        put 7 i.mnemonic (
          set_left true (
            put_text 32 (hex_bytes i.bytes) (
              set_left true
                (put 0 ":  " (put_number 12 i.address (set_left false (set_radix hex o))))))))))

unfoldable pub show_insns : List Insn → Ostream → Ostream
show_insns [] o = o
show_insns (i ∷ is) o = show_insns is (show_insn i o)

-- The offset in the file of an address in .text, a wrapped 64-bit number.
unfoldable pub code_offset : List ℕ → ℕ → ℕ
code_offset shdr addr = (sh_offset shdr + (addr + 2 ^ 64 - sh_addr shdr)) % 2 ^ 64

module _ (os : Os) where
  -- `if(code==NULL) code_size = getcode();`. A file that cannot be read leaves a null pointer and
  -- a size of -1, with which the caller goes on.
  unfoldable pub read_code : Option (List ℕ) → M os.World (Unit {0})
  read_code none = undefined_behaviour
  read_code (some bytes) = modify (λ t. record t { code = some bytes; code_size = length bytes })

  unfoldable pub load_code : Option (List ℕ) → M os.World (Unit {0})
  load_code (some bytes) = pure tt
  load_code none = do s ← get; read_code (os.read_file s.world s.file_path)

  unfoldable pub print_insns : Option (List Insn) → M os.World (Unit {0})
  print_insns none = error os "cs_open"
  print_insns (some []) = say "**   Can not disassemble code!\n"
  print_insns (some (i ∷ is)) = write_cerr (show_insns (i ∷ is))

  -- `code + offset`, handed to capstone with the size of the whole file: more than the bytes behind it.
  unfoldable pub disasm_at : ℕ → ℕ → ℕ → ℕ → Option (List ℕ) → M os.World (Unit {0})
  unfolding print_insns
  disasm_at offset addr size code_size none = undefined_behaviour
  disasm_at offset addr size code_size (some code) =
      if ltb (length code) offset || os.reads_past (drop offset code) code_size addr size
      then undefined_behaviour
      else print_insns (os.disassemble (drop offset code) code_size addr size)

  unfoldable pub disasm_running : ℕ → ℕ → M os.World (Unit {0})
  unfolding disasm_at
  disasm_running dis_addr size = do
    s ← get
    if dis_addr == 0
        then say "**   No addr is given!\n"
        else if not (intext s.elf dis_addr)
        then say "**   Addr out of text region!\n"
        else do
          load_code s.code
          t ← get
          disasm_at (code_offset t.elf.text_shdr dis_addr) dis_addr size t.code_size t.code

  unfoldable pub disasm : ℕ → ℕ → M os.World (Unit {0})
  unfolding disasm_running
  disasm dis_addr size =
      when_running "**   State should be RUNNING!\n" (disasm_running dis_addr size)
