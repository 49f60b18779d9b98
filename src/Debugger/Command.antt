-- ===== src/Debugger/Command.antt =====
-- `main`: its arguments, the loop over command lines, and what each command calls.
use nctu_unixprog.Base.{
  ℕ, Bool, Option, none, some, List, [], ◌∷◌, ◌++◌, ◌||◌, map, if◌then◌else◌, codes, text_eq,
  get_or,
}
use nctu_unixprog.Stream.{Ostream, put}
use nctu_unixprog.Text.Token.{split, lines, chomp}
use nctu_unixprog.Text.Number.{strtoul16, atoi}
use nctu_unixprog.Debugger.Os.{Os}
use nctu_unixprog.Debugger.State.{
  M, ◌>>=◌, ◌>>◌, pure, get, modify, undefined_behaviour, write_cerr, say,
}
use nctu_unixprog.Debugger.Regs.{get_reg, set_reg, getregs}
use nctu_unixprog.Debugger.Disasm.{disasm, disasm_max}
use nctu_unixprog.Debugger.Breaks.{bp, del, list_bps}
use nctu_unixprog.Debugger.Control.{si, cont, start, run, quit}
use nctu_unixprog.Debugger.Memory.{dump, vmmap}
use nctu_unixprog.Debugger.Load.{load}

-- The branches of the if-chain over `cmd`, with the arguments that they pass on.
pub data Command : Type 0 where
  break_cmd disasm_cmd dump_cmd : ℕ → Command
  delete_cmd : ℕ → Command
  delete_without_id : Command
  get_cmd load_cmd : List ℕ → Command
  set_cmd : List ℕ → ℕ → Command
  cont_cmd exit_cmd getregs_cmd help_cmd list_cmd run_cmd vmmap_cmd si_cmd start_cmd : Command
  other_cmd : Command

-- `cmd=="long" || cmd=="short"`
unfoldable pub either : List ℕ → List ℕ → List ℕ → Bool
either cmd long short = text_eq cmd long || text_eq cmd short

unfoldable pub delete_of : List ℕ → Command
delete_of [] = delete_without_id
delete_of (c ∷ cs) = delete_cmd (atoi (c ∷ cs))

unfoldable pub command_of : List ℕ → List ℕ → List ℕ → Command
unfolding either delete_of
command_of cmd arg1 arg2 =
    if either cmd (codes "break") (codes "b")
    then break_cmd (strtoul16 arg1)
    else if either cmd (codes "cont") (codes "c")
    then cont_cmd
    else if text_eq cmd (codes "delete")
    then delete_of arg1
    else if either cmd (codes "disasm") (codes "d")
    then disasm_cmd (strtoul16 arg1)
    else if either cmd (codes "dump") (codes "x")
    then dump_cmd (strtoul16 arg1)
    else if either cmd (codes "exit") (codes "q")
    then exit_cmd
    else if either cmd (codes "get") (codes "g")
    then get_cmd arg1
    else if text_eq cmd (codes "getregs")
    then getregs_cmd
    else if either cmd (codes "help") (codes "h")
    then help_cmd
    else if either cmd (codes "list") (codes "l")
    then list_cmd
    else if text_eq cmd (codes "load")
    then load_cmd arg1
    else if either cmd (codes "run") (codes "r")
    then run_cmd
    else if either cmd (codes "vmmap") (codes "m")
    then vmmap_cmd
    else if either cmd (codes "set") (codes "s")
    then set_cmd arg1 (strtoul16 arg2)
    else if text_eq cmd (codes "si")
    then si_cmd
    else if text_eq cmd (codes "start")
    then start_cmd
    else other_cmd

-- `cmd_table[0]`, `[1]` and `[2]`, or the empty string.
unfoldable pub parse_line : List ℕ → Command
unfolding command_of
parse_line line =
    let table = split line in command_of (get_or table 0 []) (get_or table 1 []) (get_or table 2 [])

unfoldable pub show_help : Ostream → Ostream
show_help o = put 0 "- start: start the program and stop at the first instruction\n" (
    put 0 "- si: step into instruction\n" (
      put 0 "- set reg val: get a single value to a register\n" (
        put 0 "- vmmap: show memory layout\n" (
          put 0 "- run: run the program\n" (
            put 0 "- load {path/to/a/program}: load a program\n" (
              put 0 "- list: list break points\n" (
                put 0 "- help: show this message\n" (
                  put 0 "- getregs: show registers\n" (
                    put 0 "- get reg: get a single value from a register\n" (
                      put 0 "- exit: terminate the debugger\n" (
                        put 0 "- dump addr [length]: dump memory content\n" (
                          put 0
                            "- disasm addr: disassemble instructions in a file or a memory region\n"
                            (put 0 "- delete {break-point-id}: remove a break point\n" (
                              put 0 "- cont: continue execution\n" (
                                put 0 "- break {instruction-address}: add a break point\n"
                                  o)))))))))))))))

-- The lines of a script, if it could be opened.
unfoldable pub script_lines : Option (List ℕ) → Option (List (List ℕ))
script_lines none = none
script_lines (some bytes) = some (map chomp (lines bytes))

module _ (os : Os) where
  unfoldable pub exec : Command → M os.World (Unit {0})
  exec (break_cmd addr) = bp os addr
  exec cont_cmd = cont os
  exec delete_without_id = say "**   No bp id is given!\n"
  exec (delete_cmd id) = del os id
  exec (disasm_cmd addr) = disasm os addr disasm_max
  exec (dump_cmd addr) = dump os addr
  exec exit_cmd = quit os
  exec (get_cmd reg) = get_reg os reg
  exec getregs_cmd = getregs os
  exec help_cmd = write_cerr show_help
  exec list_cmd = list_bps os
  exec (load_cmd path) = do modify (λ s. record s { file_path = path }); load os path
  exec run_cmd = run os
  exec vmmap_cmd = vmmap os
  exec (set_cmd reg val) = set_reg os reg val
  exec si_cmd = si os
  exec start_cmd = start os
  exec other_cmd = write_cerr (put 0 "**   Non Defined Command!\n")

  -- The loop over a script, which ends by `quit`.
  unfoldable pub run_script : List (List ℕ) → M os.World (Unit {0})
  run_script [] = quit os
  run_script (line ∷ rest) = do exec (parse_line line); run_script rest

  -- The loop over the lines that a user gives, each behind a prompt.
  unfoldable pub run_lines : List (List ℕ) → M os.World (Unit {0})
  run_lines [] = say "sdb> "
  run_lines (line ∷ rest) = do say "sdb> "; exec (parse_line line); run_lines rest

  -- `f.open` fails on a stream that is open already, and no line can be read from it then.
  unfoldable pub open_script : List ℕ → Option (List (List ℕ)) → M os.World (Option (List (List ℕ)))
  open_script path (some script) = pure (some [])
  open_script path none = do
    s ← get
    pure (script_lines (os.read_file s.world (codes "./" ++ path)))

  -- The loop over `argv`, with the script that is open; `-s` at the end makes a string of NULL.
  unfoldable pub read_args :
      List (List ℕ) → Option (List (List ℕ)) → M os.World (Option (List (List ℕ)))
  unfolding open_script
  read_args [] script = pure script
  read_args (arg ∷ []) script =
      if text_eq arg (codes "-s")
      then undefined_behaviour
      else (do modify (λ s. record s { file_path = arg }); load os arg; pure script)
  read_args (arg ∷ next ∷ rest) script =
      let as_script : M os.World (Option (List (List ℕ))) = (do
        opened ← open_script next script
        read_args rest opened) in
      let as_program : M os.World (Option (List (List ℕ))) = (do
        modify (λ s. record s { file_path = arg })
        load os arg
        read_args (next ∷ rest) script) in
      if text_eq arg (codes "-s") then as_script else as_program

  unfoldable pub main_loop : List (List ℕ) → Option (List (List ℕ)) → M os.World (Unit {0})
  main_loop input none = run_lines input
  main_loop input (some script) = run_script script

  -- `main`, over its arguments and the lines of its input.
  unfoldable pub main : List (List ℕ) → List (List ℕ) → M os.World (Unit {0})
  unfolding main_loop
  main argv input = do script ← read_args argv none; main_loop input script
