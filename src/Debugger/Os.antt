-- ===== src/Debugger/Os.antt =====
-- What the debugger asks of the kernel and of capstone: parameters of the model. Registers are
-- `struct user_regs_struct`, words are unsigned longs, texts are lists of bytes.
use nctu_unixprog.Base.{
  ℕ, ◌+◌, ◌*◌, ◌/◌, ◌%◌, ◌^◌, ◌-◌, ◌<◌, String, ◌≡◌, ◌&&◌, Option, some, List, leb, ltb,
  if◌then◌else◌, Bool,
}

-- The registers that the debugger names, and all others.
pub record Regs : Type 0 where
  pub rax : ℕ
  pub rbx : ℕ
  pub rcx : ℕ
  pub rdx : ℕ
  pub r8 : ℕ
  pub r9 : ℕ
  pub r10 : ℕ
  pub r11 : ℕ
  pub r12 : ℕ
  pub r13 : ℕ
  pub r14 : ℕ
  pub r15 : ℕ
  pub rdi : ℕ
  pub rsi : ℕ
  pub rbp : ℕ
  pub rsp : ℕ
  pub rip : ℕ
  pub eflags : ℕ
  pub others : List ℕ

-- `cs_insn`: what the debugger prints of an instruction.
pub record Insn : Type 0 where
  pub address : ℕ
  pub bytes : List ℕ
  pub mnemonic : String
  pub op_str : String

-- A call that fails gives `none`; `strerror` is the text of errno after it.
pub record Os : Type 1 where
  pub World : Type 0
  pub getregs : World → ℕ → Option Regs
  pub setregs : World → ℕ → Regs → Option World
  pub peektext : World → ℕ → ℕ → ℕ
  pub poketext : World → ℕ → ℕ → ℕ → Option World
  pub resume : World → ℕ → Option World
  pub singlestep : World → ℕ → Option World
  pub setoptions : World → ℕ → Option World
  -- The status and the pid that is not waited for any more is the debugger's own.
  pub waitpid : World → ℕ → Option (ℕ × World)
  -- `fork`, with the child's `PTRACE_TRACEME` and `execvp` of the path: the child's pid.
  pub spawn : World → List ℕ → Option (ℕ × World)
  pub kill : World → ℕ → World
  -- The bytes of a file, or of /proc/<pid>/maps.
  pub read_file : World → List ℕ → Option (List ℕ)
  pub strerror : World → String
  -- `cs_disasm`: code from the current position, the length passed, address and count. `none` is
  -- a failure of `cs_open`.
  pub disassemble : List ℕ → ℕ → ℕ → ℕ → Option (List Insn)
  -- Whether `cs_disasm`, given more bytes than are there, reads behind them.
  pub reads_past : List ℕ → ℕ → ℕ → ℕ → Bool
  -- What variables hold that the source does not initialise: whether `line` of `vmmap` is NULL, and the
  -- bytes of `tmp_shdr` of `load`.
  pub line_is_null : World → Bool
  pub tmp_shdr : World → List ℕ

-- Eight bytes as an unsigned long, lowest first.
abbrev pub word8 : (ℕ → ℕ) → ℕ
word8 b =
    b 0
    + 256 * (b 1 + 256 * (b 2 + 256 * (b 3 + 256 * (b 4 + 256 * (b 5 + 256 * (b 6 + 256 * b 7))))))

-- Documented behaviour of ptrace on a stopped child's memory and registers: a word is eight bytes,
-- lowest first, a poke writes those eight and nothing else, and the registers are stored whole: this is
-- used where rip alone differs from what was read.
pub record IsPtrace (os : Os) : Type 0 where
  pub byte : os.World → ℕ → ℕ → ℕ
  pub byte-lt : (w : os.World) (pid a : ℕ) → byte w pid a < 256
  pub peektext_bytes :
      (w : os.World) (pid a : ℕ) → os.peektext w pid a ≡ word8 (λ i. byte w pid (a + i))
  pub poketext_bytes :
      (w w' : os.World) (pid a v b : ℕ)
      → os.poketext w pid a v ≡ some w'
      → byte w' pid b ≡ (if leb a b && ltb b (a + 8) then v / 256 ^ (b - a) % 256 else byte w pid b)
  pub poketext_regs :
      (w w' : os.World) (pid a v : ℕ)
      → os.poketext w pid a v ≡ some w'
      → os.getregs w' pid ≡ os.getregs w pid
  pub setregs_regs :
      (w w' : os.World) (pid : ℕ) (r : Regs)
      → os.setregs w pid r ≡ some w'
      → os.getregs w' pid ≡ some r
  pub setregs_bytes :
      (w w' : os.World) (pid : ℕ) (r : Regs) (b : ℕ)
      → os.setregs w pid r ≡ some w'
      → byte w' pid b ≡ byte w pid b
