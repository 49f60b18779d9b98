-- ===== src/Debugger/Endings/Printing.antt =====
-- The functions of project4/hw4.cpp that print, read and patch end the process by `error` only.
use nctu_unixprog.Base.{ℕ, String, Option, none, some, List, [], ◌∷◌, zero, suc}
use nctu_unixprog.Debugger.Os.{Os, Regs, Insn}
use nctu_unixprog.Debugger.State.{Bp}
use nctu_unixprog.Debugger.Regs.{
  Reg, print_reg, assign_reg, fetch_regs, store_regs, get_reg, set_reg, getregs,
}
use nctu_unixprog.Debugger.Disasm.{
  disasm, disasm_running, disasm_at, print_insns, load_code, read_code,
}
use nctu_unixprog.Debugger.Breaks.{poke, list_bps}
use nctu_unixprog.Debugger.Control.{hit, hit_if, hits, report_trap}
use nctu_unixprog.Debugger.Memory.{dump_lines, dump_running, print_maps, dump, vmmap}
use nctu_unixprog.Debugger.Endings.{EndsClean, EndsClean-modify, clean_rules}

module _ (os : Os) where
  pub EndsClean-fetch_regs : EndsClean (fetch_regs os)
  unfolding fetch_regs
  EndsClean-fetch_regs = search clean_rules

  pub EndsClean-store_regs : (r : Regs) → EndsClean (store_regs os r)
  unfolding store_regs
  EndsClean-store_regs r = search clean_rules

  pub EndsClean-getregs : EndsClean (getregs os)
  unfolding getregs
  EndsClean-getregs = search (clean_rules, EndsClean-fetch_regs)

  pub EndsClean-poke : (f : String) (a v : ℕ) → EndsClean (poke os f a v)
  unfolding poke
  EndsClean-poke f a v = search clean_rules

  pub EndsClean-list_bps : EndsClean (list_bps os)
  unfolding list_bps
  EndsClean-list_bps = search clean_rules

  EndsClean-read_code : (o : Option (List ℕ)) → EndsClean (read_code os o)
  unfolding read_code
  EndsClean-read_code none = search clean_rules
  EndsClean-read_code (some bytes) = EndsClean-modify _

  EndsClean-load_code : (o : Option (List ℕ)) → EndsClean (load_code os o)
  unfolding load_code
  EndsClean-load_code none = search (clean_rules, EndsClean-read_code)
  EndsClean-load_code (some bytes) = search clean_rules

  EndsClean-print_insns : (o : Option (List Insn)) → EndsClean (print_insns os o)
  unfolding print_insns
  EndsClean-print_insns none = search clean_rules
  EndsClean-print_insns (some []) = search clean_rules
  EndsClean-print_insns (some (i ∷ is)) = search clean_rules

  EndsClean-disasm_at :
      (offset addr size n : ℕ) (o : Option (List ℕ)) → EndsClean (disasm_at os offset addr size n o)
  unfolding disasm_at
  EndsClean-disasm_at offset addr size n none = search clean_rules
  EndsClean-disasm_at offset addr size n (some code) = search (clean_rules, EndsClean-print_insns)

  pub EndsClean-disasm : (a n : ℕ) → EndsClean (disasm os a n)
  unfolding disasm disasm_running
  EndsClean-disasm a n = search (clean_rules, EndsClean-load_code, EndsClean-disasm_at) depth 9

  EndsClean-print_reg :
      (name : List ℕ) (r : Regs) (o : Option Reg) → EndsClean (print_reg os name r o)
  unfolding print_reg
  EndsClean-print_reg name r none = search clean_rules
  EndsClean-print_reg name r (some reg) = search clean_rules

  pub EndsClean-get_reg : (name : List ℕ) → EndsClean (get_reg os name)
  unfolding get_reg
  EndsClean-get_reg name = search (clean_rules, EndsClean-fetch_regs, EndsClean-print_reg)

  EndsClean-assign_reg : (v : ℕ) (r : Regs) (o : Option Reg) → EndsClean (assign_reg os v r o)
  unfolding assign_reg
  EndsClean-assign_reg v r none = search (clean_rules, EndsClean-store_regs)
  EndsClean-assign_reg v r (some reg) = search (clean_rules, EndsClean-store_regs)

  pub EndsClean-set_reg : (name : List ℕ) (v : ℕ) → EndsClean (set_reg os name v)
  unfolding set_reg
  EndsClean-set_reg name v = search (clean_rules, EndsClean-fetch_regs, EndsClean-assign_reg)

  EndsClean-dump_lines : (n a : ℕ) → EndsClean (dump_lines os n a)
  unfolding dump_lines
  EndsClean-dump_lines zero a = search clean_rules
  EndsClean-dump_lines (suc n) a = let rest = EndsClean-dump_lines n in search (clean_rules, rest)

  pub EndsClean-dump : (a : ℕ) → EndsClean (dump os a)
  unfolding dump dump_running
  EndsClean-dump a = search (clean_rules, EndsClean-dump_lines) depth 9

  EndsClean-print_maps : (o : Option (List ℕ)) → EndsClean (print_maps os o)
  unfolding print_maps
  EndsClean-print_maps none = search clean_rules
  EndsClean-print_maps (some bytes) = search clean_rules

  pub EndsClean-vmmap : EndsClean (vmmap os)
  unfolding vmmap
  EndsClean-vmmap = search (clean_rules, EndsClean-print_maps)

  EndsClean-hit : (b : Bp) (r : Regs) → EndsClean (hit os b r)
  unfolding hit
  EndsClean-hit b r =
      search (clean_rules, EndsClean-disasm, EndsClean-poke, EndsClean-store_regs) depth 9

  EndsClean-hit_if : (b : Bp) (r : Regs) → EndsClean (hit_if os b r)
  unfolding hit_if
  EndsClean-hit_if b r = search (clean_rules, EndsClean-hit)

  EndsClean-hits : (bs : List Bp) (r : Regs) → EndsClean (hits os bs r)
  unfolding hits
  EndsClean-hits [] r = search clean_rules
  EndsClean-hits (b ∷ bs) r =
      let rest = EndsClean-hits bs in search (clean_rules, EndsClean-hit_if, rest)

  pub EndsClean-report_trap : EndsClean (report_trap os)
  unfolding report_trap
  EndsClean-report_trap = search (clean_rules, EndsClean-fetch_regs, EndsClean-hits)
