-- ===== src/Debugger/Quiet.antt =====
-- The functions of project4/hw4.cpp that print, read, or change the child alone.
use nctu_unixprog.Base.{arith, ℕ, String, Option, none, some, List, [], ◌∷◌, zero, suc}
use nctu_unixprog.Debugger.Os.{Os, Regs, Insn}
use nctu_unixprog.Debugger.State.{Bp}
use nctu_unixprog.Debugger.Keeps.{Keeps, Same, same_rules, Keeps-modify}
use nctu_unixprog.Debugger.Regs.{
  Reg, print_reg, assign_reg, fetch_regs, store_regs, get_reg, set_reg, getregs,
}
use nctu_unixprog.Debugger.Disasm.{
  disasm, disasm_running, disasm_at, print_insns, load_code, read_code,
}
use nctu_unixprog.Debugger.Breaks.{poke, list_bps}
use nctu_unixprog.Debugger.Control.{hit, hit_if, hits, report_trap}
use nctu_unixprog.Debugger.Memory.{dump_lines, dump_running, print_maps, dump, vmmap}

module _ (os : Os) where
  pub Same-fetch_regs : Keeps Same (fetch_regs os)
  unfolding fetch_regs
  Same-fetch_regs = search same_rules

  pub Same-store_regs : (r : Regs) → Keeps Same (store_regs os r)
  unfolding store_regs
  Same-store_regs r = search same_rules

  pub Same-getregs : Keeps Same (getregs os)
  unfolding getregs
  Same-getregs = search (same_rules, Same-fetch_regs)

  pub Same-poke : (f : String) (a v : ℕ) → Keeps Same (poke os f a v)
  unfolding poke
  Same-poke f a v = search same_rules

  pub Same-list_bps : Keeps Same (list_bps os)
  unfolding list_bps
  Same-list_bps = search same_rules

  Same-read_code : (o : Option (List ℕ)) → Keeps Same (read_code os o)
  unfolding read_code
  Same-read_code none = search same_rules
  Same-read_code (some bytes) = Keeps-modify _ (λ s. ground arith)

  Same-load_code : (o : Option (List ℕ)) → Keeps Same (load_code os o)
  unfolding load_code
  Same-load_code none = search (same_rules, Same-read_code)
  Same-load_code (some bytes) = search same_rules

  Same-print_insns : (o : Option (List Insn)) → Keeps Same (print_insns os o)
  unfolding print_insns
  Same-print_insns none = search same_rules
  Same-print_insns (some []) = search same_rules
  Same-print_insns (some (i ∷ is)) = search same_rules

  Same-disasm_at :
      (offset addr size n : ℕ) (o : Option (List ℕ))
      → Keeps Same (disasm_at os offset addr size n o)
  unfolding disasm_at
  Same-disasm_at offset addr size n none = search same_rules
  Same-disasm_at offset addr size n (some code) = search (same_rules, Same-print_insns)

  pub Same-disasm : (a n : ℕ) → Keeps Same (disasm os a n)
  unfolding disasm disasm_running
  Same-disasm a n = search (same_rules, Same-load_code, Same-disasm_at) depth 9

  Same-print_reg : (name : List ℕ) (r : Regs) (o : Option Reg) → Keeps Same (print_reg os name r o)
  unfolding print_reg
  Same-print_reg name r none = search same_rules
  Same-print_reg name r (some reg) = search same_rules

  pub Same-get_reg : (name : List ℕ) → Keeps Same (get_reg os name)
  unfolding get_reg
  Same-get_reg name = search (same_rules, Same-fetch_regs, Same-print_reg)

  Same-assign_reg : (v : ℕ) (r : Regs) (o : Option Reg) → Keeps Same (assign_reg os v r o)
  unfolding assign_reg
  Same-assign_reg v r none = search (same_rules, Same-store_regs)
  Same-assign_reg v r (some reg) = search (same_rules, Same-store_regs)

  pub Same-set_reg : (name : List ℕ) (v : ℕ) → Keeps Same (set_reg os name v)
  unfolding set_reg
  Same-set_reg name v = search (same_rules, Same-fetch_regs, Same-assign_reg)

  Same-dump_lines : (n a : ℕ) → Keeps Same (dump_lines os n a)
  unfolding dump_lines
  Same-dump_lines zero a = search same_rules
  Same-dump_lines (suc n) a = let rest = Same-dump_lines n in search (same_rules, rest)

  pub Same-dump : (a : ℕ) → Keeps Same (dump os a)
  unfolding dump dump_running
  Same-dump a = search (same_rules, Same-dump_lines) depth 9

  Same-print_maps : (o : Option (List ℕ)) → Keeps Same (print_maps os o)
  unfolding print_maps
  Same-print_maps none = search same_rules
  Same-print_maps (some bytes) = search same_rules

  pub Same-vmmap : Keeps Same (vmmap os)
  unfolding vmmap
  Same-vmmap = search (same_rules, Same-print_maps)

  Same-hit : (b : Bp) (r : Regs) → Keeps Same (hit os b r)
  unfolding hit
  Same-hit b r = search (same_rules, Same-disasm, Same-poke, Same-store_regs) depth 9

  Same-hit_if : (b : Bp) (r : Regs) → Keeps Same (hit_if os b r)
  unfolding hit_if
  Same-hit_if b r = search (same_rules, Same-hit)

  Same-hits : (bs : List Bp) (r : Regs) → Keeps Same (hits os bs r)
  unfolding hits
  Same-hits [] r = search same_rules
  Same-hits (b ∷ bs) r = let rest = Same-hits bs in search (same_rules, Same-hit_if, rest)

  pub Same-report_trap : Keeps Same (report_trap os)
  unfolding report_trap
  Same-report_trap = search (same_rules, Same-fetch_regs, Same-hits)
