-- ===== src/Debugger/Control.antt =====
-- `chkstat`, `si`, `cont`, `start`, `run` and `quit`: the child process and the debugger's state.
use nctu_unixprog.Base.{
  ℕ, ◌+◌, ◌-◌, ◌/◌, ◌%◌, ◌^◌, Bool, none, List, [], ◌∷◌, ◌&&◌, ◌==◌, ltb, if◌then◌else◌,
}
use nctu_unixprog.Stream.{Ostream, dec, put, put_text, put_number, set_radix}
use nctu_unixprog.Debugger.Os.{Os, Regs}
use nctu_unixprog.Debugger.State.{
  M, Sdb, Bp, Mode, nonload, loaded, running, ◌>>=◌, ◌>>◌, pure, get, modify, exit, write_cout,
  write_cerr, say, sys, sys_result, when_running,
}
use nctu_unixprog.Debugger.Disasm.{disasm}
use nctu_unixprog.Debugger.Regs.{fetch_regs, store_regs}
use nctu_unixprog.Debugger.Breaks.{poke, chkbp}

-- The macros of <sys/wait.h> on a status word.
unfoldable pub wifexited : ℕ → Bool
wifexited status = status % 128 == 0

unfoldable pub wtermsig : ℕ → ℕ
wtermsig status = status % 128

unfoldable pub wifsignaled : ℕ → Bool
wifsignaled status = ltb 0 (status % 128) && ltb (status % 128) 127

unfoldable pub wifstopped : ℕ → Bool
wifstopped status = status % 256 == 127

unfoldable pub wstopsig : ℕ → ℕ
wstopsig status = status / 256 % 256

abbrev pub sigtrap : ℕ
sigtrap = 5

-- `<<"**   child process "<<pid<<" terminiated by signal (code"<<signal<<")"<<endl`
unfoldable pub show_signal : ℕ → ℕ → Ostream → Ostream
show_signal pid signal o = put 0 "\n" (
    put 0 ")" (
      put_number 0 signal
        (put 0 " terminiated by signal (code" (put_number 0 pid (put 0 "**   child process " o)))))

unfoldable pub show_normal : ℕ → ℕ → Ostream → Ostream
show_normal pid status o = put 0 "\n" (
    put 0 ")" (
      put_number 0 status
        (put 0 " terminiated normally (code " (put_number 0 pid (put 0 "**   child process " o)))))

-- `regs.rip-1`, and `regs.rip--`
unfoldable pub before : ℕ → ℕ
before rip = (rip + 2 ^ 64 - 1) % 2 ^ 64

module _ (os : Os) where
  -- The whole status word is printed as the exit code.
  unfoldable pub report_exit : ℕ → M os.World (Unit {0})
  report_exit status = do
    s ← get
    write_cout (
        if wifsignaled status
        then show_signal s.pid (wtermsig status)
        else show_normal s.pid status)
    modify (λ t. record t { pid = 0; state = loaded })

  unfoldable pub hit : Bp → Regs → M os.World (Unit {0})
  hit b regs = do
    say "**   hit bp @ "
    disasm os b.addr 1
    poke os "ptrace(PTRACE_POKETEXT)" b.addr b.orig_code
    store_regs os (record regs { rip = before regs.rip })

  unfoldable pub hit_if : Bp → Regs → M os.World Regs
  hit_if b regs =
      if b.addr == before regs.rip
      then hit b regs >> pure (record regs { rip = before regs.rip })
      else pure regs

  -- The loop of `chkstat`; the registers are a local copy that it changes.
  unfoldable pub hits : List Bp → Regs → M os.World (Unit {0})
  hits [] regs = pure tt
  hits (b ∷ bs) regs = do r ← hit_if b regs; hits bs r

  unfoldable pub report_trap : M os.World (Unit {0})
  report_trap = do regs ← fetch_regs os; s ← get; hits s.bp_list regs

  unfoldable pub report_stop : ℕ → M os.World (Unit {0})
  report_stop status =
      if wstopsig status == sigtrap
      then report_trap
      else (do s ← get; write_cout (show_signal s.pid (wstopsig status)))

  unfoldable pub chkstat : M os.World (Unit {0})
  chkstat = do
    s ← get
    status ← sys_result os "waitpid" (λ w. os.waitpid w s.pid)
    if wifexited status then report_exit status else pure tt
    if wifstopped status then report_stop status else pure tt

  unfoldable pub si : M os.World (Unit {0})
  si = when_running "**   The state should be RUNNING!\n" (do
    chkbp os
    s ← get
    sys os "ptrace(PTRACE_SINGLESTEP)" (λ w. os.singlestep w s.pid)
    chkstat)

  unfoldable pub cont : M os.World (Unit {0})
  cont =
      when_running "**    The state is not RUNNING!\n"
        (do chkbp os; s ← get; sys os "ptrace(PTRACE_CONT)" (λ w. os.resume w s.pid); chkstat)

  -- The parent's side of the fork.
  unfoldable pub start_child : M os.World (Unit {0})
  start_child = do
    s ← get
    child ← sys_result os "fork" (λ w. os.spawn w s.file_path)
    modify (λ t. record t { pid = child })
    status ← sys_result os "waitpid" (λ w. os.waitpid w child)
    sys os "ptrace(PTRACE_SETOPTIONS)" (λ w. os.setoptions w child)
    write_cout (λ o. put 0 "\n" (put_number 0 child (set_radix dec (put 0 "**   pid:" o))))
    modify (λ t. record t { state = running })

  unfoldable pub start_loaded : M os.World (Unit {0})
  start_loaded = do
    s ← get
    if s.pid == 0
        then start_child
        else write_cerr
            (λ o. put 0 " is already running\n" (put_text 0 s.file_path (put 0 "** program " o)))

  unfoldable pub start_in : Mode → M os.World (Unit {0})
  unfolding start_loaded
  start_in loaded = start_loaded
  start_in _ = say "** The state is not LOADED!\n"

  unfoldable pub start : M os.World (Unit {0})
  unfolding start_in
  start = do s ← get; start_in s.state

  unfoldable pub run_in : Mode → M os.World (Unit {0})
  run_in running = cont
  run_in loaded = do start; cont
  run_in nonload = say "**   The state should be RUNNING or LOADED!\n"

  unfoldable pub run : M os.World (Unit {0})
  unfolding run_in
  run = do s ← get; run_in s.state

  -- `kill(pid, SIGTERM)` if there is a child.
  unfoldable pub kill_child : Sdb os.World → Sdb os.World
  kill_child s = if s.pid == 0 then s else record s { world = os.kill s.world s.pid; pid = 0 }

  unfoldable pub quit : M os.World (Unit {0})
  quit = do modify kill_child; modify (λ t. record t { code = none }); exit 0
