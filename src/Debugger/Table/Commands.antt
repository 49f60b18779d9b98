-- ===== src/Debugger/Table/Commands.antt =====
-- The break point table of project4/hw4.cpp under all commands and whole sessions.
use nctu_unixprog.Base.{ℕ, ◌≡◌, refl, Option, none, some, List, [], ◌∷◌}
use nctu_unixprog.Debugger.Os.{Os}
use nctu_unixprog.Debugger.State.{Sdb, Mode, nonload, loaded, running, ok, ◌>>◌, modify, exit}
use nctu_unixprog.Debugger.Keeps.{
  Keeps, Keeps-ok, Same-say, Same-write_cout, Same-write_cerr, Same-sys, Same-sys_result, Keeps->>=,
  Keeps->>, Keeps-get, Keeps-modify, Keeps-pure, Keeps-if, Keeps-when_running,
  Keeps-undefined_behaviour, Keeps-error, Keeps-exit,
}
use nctu_unixprog.Debugger.Quiet.{
  Same-disasm, Same-report_trap, Same-list_bps, Same-get_reg, Same-set_reg, Same-getregs, Same-dump,
  Same-vmmap,
}
use nctu_unixprog.Debugger.Control.{
  report_exit, report_stop, chkstat, si, cont, start, start_in, start_loaded, start_child, run,
  run_in, quit,
}
use nctu_unixprog.Debugger.Load.{
  Search, found, missing, outside, load, load_in, load_file, load_header, load_sections, found_text,
  finish,
}
use nctu_unixprog.Debugger.Command.{
  Command, break_cmd, cont_cmd, delete_without_id, delete_cmd, disasm_cmd, dump_cmd, exit_cmd,
  get_cmd, getregs_cmd, help_cmd, list_cmd, load_cmd, run_cmd, vmmap_cmd, set_cmd, si_cmd,
  start_cmd, other_cmd, parse_line, exec, run_lines,
}
use nctu_unixprog.Debugger.Table.{
  IsTable, KeepsTable, KeepsTable-IsPreorder, table_of_Same, bp-KeepsTable, del-KeepsTable,
  chkbp-KeepsTable,
}

module _ {W : Type 0} where
  -- An assignment to another global.
  Keeps-by :
      (f : Sdb W → Sdb W) → ((s : Sdb W) → (f s).bp_list ≡ s.bp_list) → Keeps KeepsTable (modify f)
  Keeps-by f e = Keeps-modify f (λ s h. rw (e s) h)

ruleset table_rules = (
  KeepsTable-IsPreorder, table_of_Same, Keeps->>=, Keeps->>, Keeps-get, Keeps-pure, Keeps-if,
  Keeps-when_running, Keeps-undefined_behaviour, Keeps-error, Keeps-exit, Same-say, Same-write_cout,
  Same-write_cerr, Same-sys, Same-sys_result, Same-report_trap, Keeps-by, refl, chkbp-KeepsTable,
)

module _ (os : Os) where
  report_exit-KeepsTable : (n : ℕ) → Keeps KeepsTable (report_exit os n)
  unfolding report_exit
  report_exit-KeepsTable n = search table_rules

  report_stop-KeepsTable : (n : ℕ) → Keeps KeepsTable (report_stop os n)
  unfolding report_stop
  report_stop-KeepsTable n = search table_rules

  chkstat-KeepsTable : Keeps KeepsTable (chkstat os)
  unfolding chkstat
  chkstat-KeepsTable = search (table_rules, report_exit-KeepsTable, report_stop-KeepsTable) depth 8

  cont-KeepsTable : Keeps KeepsTable (cont os)
  unfolding cont
  cont-KeepsTable = search (table_rules, chkstat-KeepsTable) depth 8

  si-KeepsTable : Keeps KeepsTable (si os)
  unfolding si
  si-KeepsTable = search (table_rules, chkstat-KeepsTable) depth 8

  start_child-KeepsTable : Keeps KeepsTable (start_child os)
  unfolding start_child
  start_child-KeepsTable = search table_rules depth 12

  start_in-KeepsTable : (m : Mode) → Keeps KeepsTable (start_in os m)
  unfolding start_in start_loaded
  start_in-KeepsTable loaded = search (table_rules, start_child-KeepsTable)
  start_in-KeepsTable nonload = search table_rules
  start_in-KeepsTable running = search table_rules

  start-KeepsTable : Keeps KeepsTable (start os)
  unfolding start
  start-KeepsTable = search (table_rules, start_in-KeepsTable)

  run_in-KeepsTable : (m : Mode) → Keeps KeepsTable (run_in os m)
  unfolding run_in
  run_in-KeepsTable running = cont-KeepsTable
  run_in-KeepsTable loaded = search (table_rules, start-KeepsTable, cont-KeepsTable)
  run_in-KeepsTable nonload = search table_rules

  run-KeepsTable : Keeps KeepsTable (run os)
  unfolding run
  run-KeepsTable = search (table_rules, run_in-KeepsTable)

  found_text-KeepsTable : (path : List ℕ) (r : Search) → Keeps KeepsTable (found_text os path r)
  unfolding found_text finish
  found_text-KeepsTable path (found shdr) = search table_rules depth 8
  found_text-KeepsTable path missing = search table_rules depth 8
  found_text-KeepsTable path outside = search table_rules

  load_file-KeepsTable :
      (path : List ℕ) (o : Option (List ℕ)) → Keeps KeepsTable (load_file os path o)
  unfolding load_file load_header load_sections
  load_file-KeepsTable path none = search table_rules
  load_file-KeepsTable path (some file) = search (table_rules, found_text-KeepsTable) depth 12

  load_in-KeepsTable : (path : List ℕ) (m : Mode) → Keeps KeepsTable (load_in os path m)
  unfolding load_in
  load_in-KeepsTable path loaded = search table_rules
  load_in-KeepsTable path nonload = search (table_rules, load_file-KeepsTable)
  load_in-KeepsTable path running = search (table_rules, load_file-KeepsTable)

  load-KeepsTable : (path : List ℕ) → Keeps KeepsTable (load os path)
  unfolding load
  load-KeepsTable path = search (table_rules, load_in-KeepsTable)

  quit-KeepsTable : Keeps KeepsTable (quit os)
  unfolding quit ◌>>◌ modify exit
  quit-KeepsTable = record { apply = λ s. tt }

  exec-KeepsTable : (c : Command) → Keeps KeepsTable (exec os c)
  unfolding exec
  exec-KeepsTable (break_cmd addr) = bp-KeepsTable os addr
  exec-KeepsTable cont_cmd = cont-KeepsTable
  exec-KeepsTable delete_without_id = table_of_Same _ (Same-say _)
  exec-KeepsTable (delete_cmd id) = del-KeepsTable os id
  exec-KeepsTable (disasm_cmd addr) = table_of_Same _ (Same-disasm os addr _)
  exec-KeepsTable (dump_cmd addr) = table_of_Same _ (Same-dump os addr)
  exec-KeepsTable exit_cmd = quit-KeepsTable
  exec-KeepsTable (get_cmd reg) = table_of_Same _ (Same-get_reg os reg)
  exec-KeepsTable getregs_cmd = table_of_Same _ (Same-getregs os)
  exec-KeepsTable help_cmd = table_of_Same _ (Same-write_cerr _)
  exec-KeepsTable list_cmd = table_of_Same _ (Same-list_bps os)
  exec-KeepsTable (load_cmd path) = search (table_rules, load-KeepsTable)
  exec-KeepsTable run_cmd = run-KeepsTable
  exec-KeepsTable vmmap_cmd = table_of_Same _ (Same-vmmap os)
  exec-KeepsTable (set_cmd reg val) = table_of_Same _ (Same-set_reg os reg val)
  exec-KeepsTable si_cmd = si-KeepsTable
  exec-KeepsTable start_cmd = start-KeepsTable
  exec-KeepsTable other_cmd = table_of_Same _ (Same-write_cerr _)

  run_lines-KeepsTable : (ls : List (List ℕ)) → Keeps KeepsTable (run_lines os ls)
  unfolding run_lines
  run_lines-KeepsTable [] = search table_rules
  run_lines-KeepsTable (l ∷ ls) =
      Keeps->> KeepsTable-IsPreorder _ _ (table_of_Same _ (Same-say _)) (
        Keeps->> KeepsTable-IsPreorder _ _ (exec-KeepsTable (parse_line l))
          (run_lines-KeepsTable ls))

  -- A session that comes back to the prompt, whatever its lines, lists no address twice and not 0, if
  -- the table that it begins with does not.
  pub run_lines-IsTable :
      (ls : List (List ℕ)) (s t : Sdb os.World)
      → IsTable s.bp_list
      → run_lines os ls s ≡ ok tt t
      → IsTable t.bp_list
  run_lines-IsTable ls s t h e = Keeps-ok (run_lines-KeepsTable ls) s t tt e h
