-- ===== src/Debugger/Regs.antt =====
-- `get`, `set` and `getregs`.
use nctu_unixprog.Base.{
  ℕ, String, true, false, Option, none, some, List, if◌then◌else◌, codes, text_eq,
}
use nctu_unixprog.Stream.{
  Ostream, dec, hex, put, put_text, put_number, set_radix, set_left, set_fill,
}
use nctu_unixprog.Debugger.Os.{Os, Regs}
use nctu_unixprog.Debugger.State.{M, ◌>>=◌, ◌>>◌, get, write_cerr, say, sys, ask, when_running}

-- The registers that the if-chains of `get` and `set` name.
pub data Reg : Type 0 where
  rax rbx rcx rdx r8 r9 r10 r11 r12 r13 r14 r15 rdi rsi rbp rsp rip flags : Reg

unfoldable pub reg_of : List ℕ → Option Reg
reg_of reg =
    if text_eq reg (codes "rax")
    then some rax
    else if text_eq reg (codes "rbx")
    then some rbx
    else if text_eq reg (codes "rcx")
    then some rcx
    else if text_eq reg (codes "rdx")
    then some rdx
    else if text_eq reg (codes "r8")
    then some r8
    else if text_eq reg (codes "r9")
    then some r9
    else if text_eq reg (codes "r10")
    then some r10
    else if text_eq reg (codes "r11")
    then some r11
    else if text_eq reg (codes "r12")
    then some r12
    else if text_eq reg (codes "r13")
    then some r13
    else if text_eq reg (codes "r14")
    then some r14
    else if text_eq reg (codes "r15")
    then some r15
    else if text_eq reg (codes "rdi")
    then some rdi
    else if text_eq reg (codes "rsi")
    then some rsi
    else if text_eq reg (codes "rbp")
    then some rbp
    else if text_eq reg (codes "rsp")
    then some rsp
    else if text_eq reg (codes "rip")
    then some rip
    else if text_eq reg (codes "flags")
    then some flags
    else none

unfoldable pub read_reg : Reg → Regs → ℕ
read_reg rax regs = regs.rax
read_reg rbx regs = regs.rbx
read_reg rcx regs = regs.rcx
read_reg rdx regs = regs.rdx
read_reg r8 regs = regs.r8
read_reg r9 regs = regs.r9
read_reg r10 regs = regs.r10
read_reg r11 regs = regs.r11
read_reg r12 regs = regs.r12
read_reg r13 regs = regs.r13
read_reg r14 regs = regs.r14
read_reg r15 regs = regs.r15
read_reg rdi regs = regs.rdi
read_reg rsi regs = regs.rsi
read_reg rbp regs = regs.rbp
read_reg rsp regs = regs.rsp
read_reg rip regs = regs.rip
read_reg flags regs = regs.eflags

unfoldable pub write_reg : Reg → ℕ → Regs → Regs
write_reg rax val regs = record regs { rax = val }
write_reg rbx val regs = record regs { rbx = val }
write_reg rcx val regs = record regs { rcx = val }
write_reg rdx val regs = record regs { rdx = val }
write_reg r8 val regs = record regs { r8 = val }
write_reg r9 val regs = record regs { r9 = val }
write_reg r10 val regs = record regs { r10 = val }
write_reg r11 val regs = record regs { r11 = val }
write_reg r12 val regs = record regs { r12 = val }
write_reg r13 val regs = record regs { r13 = val }
write_reg r14 val regs = record regs { r14 = val }
write_reg r15 val regs = record regs { r15 = val }
write_reg rdi val regs = record regs { rdi = val }
write_reg rsi val regs = record regs { rsi = val }
write_reg rbp val regs = record regs { rbp = val }
write_reg rsp val regs = record regs { rsp = val }
write_reg rip val regs = record regs { rip = val }
write_reg flags val regs = record regs { eflags = val }

-- `reg = val (0xval)`, which leaves cerr in hexadecimal.
unfoldable pub show_reg : List ℕ → ℕ → Ostream → Ostream
show_reg reg val o = put 0 ")\n" (
    put_number 0 val (
      set_radix hex
        (put 0 " (0x" (put_number 0 val (set_radix dec (put 0 " = " (put_text 0 reg o)))))))

-- One column of `getregs`.
abbrev column : String → ℕ → String → Ostream → Ostream
column name val end o = put 0 end (put_number 10 val (set_left true (put 7 name (set_left true o))))

unfoldable pub show_regs : Regs → Ostream → Ostream
show_regs regs o = flags_column (row4 (row3 (row2 (row1 (set_radix hex o)))))
  where
    row1 : Ostream → Ostream
    row1 p = column "RDX: " regs.rdx "\n" (
        column "RCX: " regs.rcx "\t"
          (column "RBX: " regs.rbx "\t" (column "RAX: " regs.rax "\t" p)))

    row2 : Ostream → Ostream
    row2 p =
        column "R11: " regs.r11 "\n"
          (column "R10: " regs.r10 "\t" (column "R9: " regs.r9 "\t" (column "R8: " regs.r8 "\t" p)))

    row3 : Ostream → Ostream
    row3 p = column "R15: " regs.r15 "\n" (
        column "R14: " regs.r14 "\t"
          (column "R13: " regs.r13 "\t" (column "R12: " regs.r12 "\t" p)))

    row4 : Ostream → Ostream
    row4 p = column "RSP: " regs.rsp "\n" (
        column "RBP: " regs.rbp "\t"
          (column "RSI: " regs.rsi "\t" (column "RDI: " regs.rdi "\t" p)))

    flags_column : Ostream → Ostream
    flags_column p = set_fill b' ' (
        put 0 "\n" (
          put_number 16 regs.eflags (
            set_left false (
              set_fill b'0' (
                set_left true
                  (put 7 "FLAGS: " (set_left true (column "RIP: " regs.rip "\t" p))))))))

module _ (os : Os) where
  -- `ptrace(PTRACE_GETREGS, pid, 0, &regs)`
  unfoldable pub fetch_regs : M os.World Regs
  fetch_regs = do s ← get; ask os "ptrace(PTRACE_GETREGS)" (λ w. os.getregs w s.pid)

  -- `ptrace(PTRACE_SETREGS, pid, 0, &regs)`
  unfoldable pub store_regs : Regs → M os.World (Unit {0})
  store_regs regs = do s ← get; sys os "ptrace(PTRACE_SETREGS)" (λ w. os.setregs w s.pid regs)

  -- The end of the if-chain of `get`, and of `set`.
  unfoldable pub print_reg : List ℕ → Regs → Option Reg → M os.World (Unit {0})
  print_reg reg regs none = say "**   [reg] is not found!\n"
  print_reg reg regs (some r) = write_cerr (show_reg reg (read_reg r regs))

  unfoldable pub get_reg : List ℕ → M os.World (Unit {0})
  get_reg reg =
      when_running "**   The state should be RUNNING!\n"
        (do regs ← fetch_regs; print_reg reg regs (reg_of reg))

  -- The registers are written back also where the name is unknown.
  unfoldable pub assign_reg : ℕ → Regs → Option Reg → M os.World (Unit {0})
  assign_reg val regs none = do say "**   [reg] is not found!\n"; store_regs regs
  assign_reg val regs (some r) = store_regs (write_reg r val regs)

  unfoldable pub set_reg : List ℕ → ℕ → M os.World (Unit {0})
  set_reg reg val =
      when_running "**   The state should be RUNNING!\n"
        (do regs ← fetch_regs; assign_reg val regs (reg_of reg))

  unfoldable pub getregs : M os.World (Unit {0})
  getregs =
      when_running "**   The state should be RUNNING!\n"
        (do regs ← fetch_regs; write_cerr (show_regs regs))
