-- ===== src/Debugger/Tests.antt =====
-- A small kernel that runs: the memory and the registers of one child, and one ELF file. With it the
-- children's tests run commands of project4/hw4.cpp (Sessions, Memories,
-- Statuses, Progress, Loads, Typing,
-- Endings, Traps).
mod Sessions
mod Memories
mod Statuses
mod Progress
mod Loads
mod Typing
mod Endings
mod Traps
use nctu_unixprog.Base.{
  arith, ℕ, ◌+◌, ◌-◌, ◌/◌, ◌%◌, ◌^◌, ◌<◌, ◌≡◌, refl, ap, sym, ◌∙◌, Option, none, some, List, [],
  ◌∷◌, Bool, true, false, ◌++◌, ◌&&◌, leb, ltb, ◌*◌, length, if◌then◌else◌, codes, replicate, take,
  drop,
}
use nctu_unixprog.Stream.{fresh_stream}
use nctu_unixprog.Debugger.Os.{Os, Regs, Insn, word8, IsPtrace}
use nctu_unixprog.Debugger.State.{Mode, Bp, Sdb, Outcome, ok, exited, undefined}
use nctu_unixprog.Debugger.Elf.{zero_header}
use nctu_unixprog.Debugger.Machine.Starts.{IsFork}

-- The child, the status that it reports next, and the registers that it has.
pub record Toy : Type 0 where
  pub memory : ℕ → ℕ
  pub regs : Regs
  pub status : ℕ

-- One section header, of a section .text at 0x1000 that is the string table as well, and bytes behind.
abbrev pub elf_file : List ℕ
elf_file =
    0x7f ∷ 69 ∷ 76 ∷ 70 ∷ 2 ∷ replicate 35 0 ++ (64 ∷ replicate 19 0 ++ (1 ∷ 0 ∷ 0 ∷ 0 ∷ section))
  where
    section : List ℕ
    section =
        replicate 17 0
        ++ (16 ∷ replicate 6 0 ++ (128 ∷ replicate 7 0 ++ (6 ∷ replicate 31 0 ++ table)))
      where
        table : List ℕ
        table = codes ".text" ++ (0 ∷ replicate 150 0x90)

abbrev toy_byte : Toy → ℕ → ℕ → ℕ
toy_byte w pid a = w.memory a % 256

abbrev pub toy : Os
toy = record {
  World = Toy;
  getregs = λ w pid. some w.regs;
  setregs = λ w pid r. some (record w { regs = r });
  peektext = λ w pid a. word8 (λ i. toy_byte w pid (a + i));
  poketext = λ w pid a v. some (record w {
    memory = λ b. if leb a b && ltb b (a + 8) then v / 256 ^ (b - a) % 256 else w.memory b;
  });
  resume = λ w pid. some w;
  singlestep = λ w pid. some w;
  setoptions = λ w pid. some w;
  waitpid = λ w pid. some (w.status, w);
  spawn = λ w path. some (7, w);
  kill = λ w pid. w;
  read_file = λ w path. some elf_file;
  strerror = λ w. "error";
  reads_past = λ code size addr n. ltb (length code) (15 * n);
  line_is_null = λ w. true;
  tmp_shdr = λ w. replicate 64 0xaa;
  disassemble = λ code size addr n.
      some (record { address = addr; bytes = 0x90 ∷ []; mnemonic = "nop"; op_str = "" } ∷ []);
}

abbrev got : Toy → Option Toy → Toy
got w none = w
got w (some v) = v

pub byte_of_if :
    (c : Bool) (x m : ℕ) → (if c then x % 256 else m) % 256 ≡ (if c then x % 256 else m % 256)
byte_of_if true x m = omega arith
byte_of_if false x m = refl

abbrev pub toy_ptrace : IsPtrace toy
toy_ptrace = record {
  byte = toy_byte;
  byte-lt = λ w pid a. omega arith;
  peektext_bytes = λ w pid a. refl;
  poketext_bytes = λ w w' pid a v b e.
      ap (λ o. toy_byte (got w o) pid b) (sym e) ∙ byte_of_if (leb a b && ltb b (a + 8)) _ _;
  poketext_regs = λ w w' pid a v e. ap (λ o. some (got w o).regs) (sym e);
  setregs_regs = λ w w' pid r e. ap (λ o. some (got w o).regs) (sym e);
  setregs_bytes = λ w w' pid r b e. ap (λ o. toy_byte (got w o) pid b) (sym e);
}

pub toy-IsFork : IsFork toy
toy-IsFork w path = ground arith

abbrev pub toy_regs : ℕ → Regs
toy_regs rip = record {
  rax = 1;
  rbx = 2;
  rcx = 3;
  rdx = 4;
  r8 = 5;
  r9 = 6;
  r10 = 7;
  r11 = 8;
  r12 = 9;
  r13 = 10;
  r14 = 11;
  r15 = 12;
  rdi = 13;
  rsi = 14;
  rbp = 15;
  rsp = 16;
  rip = rip;
  eflags = 17;
  others = [];
}

-- A debugger with the section .text of the file, over a child whose byte at a is a.
abbrev pub toy_state : Mode → ℕ → List Bp → ℕ → ℕ → Sdb Toy
toy_state state pid table rip status = record {
  state = state;
  file_path = codes "a.out";
  pid = pid;
  code = none;
  code_size = 0;
  bp_list = table;
  elf = record {
    ehdr = take 64 elf_file;
    str_shdr = zero_header;
    str_tab = none;
    text_shdr = take 64 (drop 64 elf_file);
  };
  cout = fresh_stream;
  cerr = fresh_stream;
  world = record { memory = λ a. a; regs = toy_regs rip; status = status };
}

-- The state that a command leaves.
abbrev pub left_by : {A : Type 0} → Outcome Toy A → Sdb Toy → Sdb Toy
left_by (ok a t) s = t
left_by (exited c t) s = t
left_by undefined s = s
