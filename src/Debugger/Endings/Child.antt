-- ===== src/Debugger/Endings/Child.antt =====
-- Break points and the child of project4/hw4.cpp: which functions end the process, and how.
use nctu_unixprog.Base.{ℕ, Option, none, some, List, [], ◌∷◌, ltb}
use nctu_unixprog.Debugger.Os.{Os}
use nctu_unixprog.Debugger.State.{Bp, Mode, nonload, loaded, running}
use nctu_unixprog.Debugger.Breaks.{
  bp, bp_running, set_trap, record_bp, append_bp, del, del_running, del_entry, rearm, chkbp,
}
use nctu_unixprog.Debugger.Control.{
  report_exit, report_stop, chkstat, si, cont, start, start_in, start_loaded, start_child, run,
  run_in,
}
use nctu_unixprog.Debugger.Endings.{
  EndsClean, EndsClean->>, EndsClean-pure, EndsClean-if, clean_rules,
}
use nctu_unixprog.Debugger.Endings.Printing.{
  EndsClean-fetch_regs, EndsClean-poke, EndsClean-disasm, EndsClean-report_trap,
}

module _ (os : Os) where
  EndsClean-append_bp : (a c : ℕ) → EndsClean (append_bp os a c)
  unfolding append_bp
  EndsClean-append_bp a c = search (clean_rules, EndsClean-disasm)

  EndsClean-record_bp : (a c : ℕ) → EndsClean (record_bp os a c)
  unfolding record_bp
  EndsClean-record_bp a c = search (clean_rules, EndsClean-append_bp)

  pub EndsClean-bp : (a : ℕ) → EndsClean (bp os a)
  unfolding bp bp_running set_trap
  EndsClean-bp a = search (clean_rules, EndsClean-poke, EndsClean-record_bp) depth 12

  EndsClean-del_entry : (id : ℕ) (o : Option Bp) → EndsClean (del_entry os id o)
  unfolding del_entry
  EndsClean-del_entry id none = search clean_rules
  EndsClean-del_entry id (some b) = search (clean_rules, EndsClean-disasm, EndsClean-poke)

  pub EndsClean-del : (id : ℕ) → EndsClean (del os id)
  unfolding del del_running
  EndsClean-del id = search (clean_rules, EndsClean-del_entry) depth 9

  EndsClean-rearm : (rip : ℕ) (bs : List Bp) → EndsClean (rearm os rip bs)
  unfolding rearm
  EndsClean-rearm rip [] = EndsClean-pure tt
  EndsClean-rearm rip (b ∷ bs) =
      EndsClean->> _ _ (EndsClean-if (ltb rip b.addr) _ _ (EndsClean-bp b.addr) (EndsClean-pure tt))
        (EndsClean-rearm rip bs)

  EndsClean-chkbp : EndsClean (chkbp os)
  unfolding chkbp
  EndsClean-chkbp = search (clean_rules, EndsClean-fetch_regs, EndsClean-rearm)

  EndsClean-chkstat : EndsClean (chkstat os)
  unfolding chkstat report_exit report_stop
  EndsClean-chkstat = search (clean_rules, EndsClean-report_trap) depth 12

  pub EndsClean-si : EndsClean (si os)
  unfolding si
  EndsClean-si = search (clean_rules, EndsClean-chkbp, EndsClean-chkstat) depth 9

  pub EndsClean-cont : EndsClean (cont os)
  unfolding cont
  EndsClean-cont = search (clean_rules, EndsClean-chkbp, EndsClean-chkstat) depth 9

  EndsClean-start_in : (m : Mode) → EndsClean (start_in os m)
  unfolding start_in start_loaded start_child
  EndsClean-start_in loaded = search clean_rules depth 14
  EndsClean-start_in running = search clean_rules
  EndsClean-start_in nonload = search clean_rules

  pub EndsClean-start : EndsClean (start os)
  unfolding start
  EndsClean-start = search (clean_rules, EndsClean-start_in)

  EndsClean-run_in : (m : Mode) → EndsClean (run_in os m)
  unfolding run_in
  EndsClean-run_in running = EndsClean-cont
  EndsClean-run_in loaded = search (clean_rules, EndsClean-start, EndsClean-cont)
  EndsClean-run_in nonload = search clean_rules

  pub EndsClean-run : EndsClean (run os)
  unfolding run
  EndsClean-run = search (clean_rules, EndsClean-run_in)
