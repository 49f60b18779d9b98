-- ===== src/Debugger/Progress/Commands.antt =====
-- The commands of project4/hw4.cpp return.
use nctu_unixprog.Base.{
  arith, ℕ, zero, suc, ◌≡◌, refl, inl, inr, true, Bool-cases, Option, none, some, List, get_elem?,
}
use nctu_unixprog.Debugger.Os.{Os, Regs}
use nctu_unixprog.Debugger.State.{
  M, Sdb, Bp, Outcome, write_cout, ok, exited, undefined, ◌>>=◌, ◌>>◌, get, when_running,
  is_running, say,
}
use nctu_unixprog.Debugger.Breaks.{del, del_running, del_entry, find_id, list_bps}
use nctu_unixprog.Debugger.Regs.{
  Reg, fetch_regs, store_regs, print_reg, get_reg, assign_reg, set_reg, getregs,
}
use nctu_unixprog.Debugger.Memory.{dump_lines, dump_running, dump}
use nctu_unixprog.Debugger.Command.{
  Command, break_cmd, cont_cmd, delete_without_id, delete_cmd, disasm_cmd, dump_cmd, exit_cmd,
  get_cmd, getregs_cmd, help_cmd, list_cmd, load_cmd, run_cmd, vmmap_cmd, set_cmd, si_cmd,
  start_cmd, other_cmd, exec,
}
use nctu_unixprog.Debugger.Progress.{
  IsSome, IsHealthy, Total, Safe, Safe->>=, Safe->>, Safe-get, Safe-pure, Safe-modify, Safe-say,
  Safe-write_cerr, IsCovered, safe_rules,
}
use nctu_unixprog.Debugger.Progress.Disassembly.{Safe-disasm}
use nctu_unixprog.Debugger.Progress.Control.{
  Safe-poke, Safe-fetch_regs, Safe-store_regs, Safe-bp, Safe-si, Safe-cont, Safe-start, Safe-run,
}

module _ (os : Os) (files : List ℕ → List ℕ) (H : IsHealthy os files) where
  abbrev Returns : M os.World (Unit {0}) → Type 0
  Returns m = Safe (IsCovered files) m

  abbrev fetches : Safe (IsCovered files) (fetch_regs os)
  fetches = Safe-fetch_regs os files H

  abbrev stores : (r : Regs) → Returns (store_regs os r)
  stores = Safe-store_regs os files H

  Safe-get_reg : (name : List ℕ) → Returns (get_reg os name)
  unfolding get_reg print_reg
  Safe-get_reg name = search (safe_rules, fetches, print)
    where
      print : (regs : Regs) (o : Option Reg) → Returns (print_reg os name regs o)
      print regs none = Safe-say files _
      print regs (some r) = Safe-write_cerr files _

  Safe-set_reg : (name : List ℕ) (v : ℕ) → Returns (set_reg os name v)
  unfolding set_reg assign_reg
  Safe-set_reg name v = search (safe_rules, fetches, assign)
    where
      assign : (regs : Regs) (o : Option Reg) → Returns (assign_reg os v regs o)
      assign regs none = search (safe_rules, stores)
      assign regs (some r) = search (safe_rules, stores)

  Safe-getregs : Returns (getregs os)
  unfolding getregs
  Safe-getregs = search (safe_rules, fetches)

  Safe-dump_lines : (n a : ℕ) → Returns (dump_lines os n a)
  unfolding dump_lines
  Safe-dump_lines zero a = Safe-pure tt
  Safe-dump_lines (suc n) a =
      Safe->>= _ _ Safe-get λ s. Safe->> _ _ (Safe-write_cerr files _) (Safe-dump_lines n _)

  Safe-dump : (a : ℕ) → Returns (dump os a)
  unfolding dump dump_running
  Safe-dump a = search (safe_rules, Safe-dump_lines) depth 9

  Safe-list_bps : Returns (list_bps os)
  unfolding list_bps
  Safe-list_bps = search safe_rules

-- `delete` of an id that is its entry's index, or that is not in the table.
abbrev pub IsDeletable : {W : Type 0} → Command → Sdb W → Type 0
IsDeletable (delete_cmd id) s = find_id id s.bp_list ≡ true → IsSome (get_elem? s.bp_list id)
IsDeletable c s = Unit

-- Neither `exit`, which does not return, nor `load`, which depends on the bytes of a file, nor `vmmap`,
-- which depends on a variable that is not initialised.
abbrev pub IsOrdinary : Command → Type 0
IsOrdinary exit_cmd = ⊥
IsOrdinary (load_cmd path) = ⊥
IsOrdinary vmmap_cmd = ⊥
IsOrdinary c = Unit

abbrev pub Returned : {W : Type 0} → (List ℕ → List ℕ) → Outcome W (Unit {0}) → Type 0
Returned {W} files o = (t : Sdb W) × (o ≡ ok tt t) × IsCovered files t

Returned-of_Total :
    {W : Type 0} (files : List ℕ → List ℕ) (o : Outcome W (Unit {0}))
    → Total (IsCovered files) o
    → Returned files o
Returned-of_Total files (ok u t) h = (t, refl, h)
Returned-of_Total files (exited c t) h = absurd h
Returned-of_Total files undefined h = absurd h

module _ (os : Os) (files : List ℕ → List ℕ) (H : IsHealthy os files) where
  del_entry-Total :
      (id : ℕ) (o : Option Bp) (s : Sdb os.World)
      → IsSome o
      → IsCovered files s
      → Total (IsCovered files) (del_entry os id o s)
  unfolding del_entry
  del_entry-Total id none s h i = absurd h
  del_entry-Total id (some b) s h i =
      (Safe->> _ _ (Safe-disasm os files H b.addr 1 (omega arith)) (
          Safe->> _ _ (Safe-poke os files H _ _ _)
            (Safe-modify _ (λ t k. record { covered = k.covered })))).run
        s i

  del_listed-Total :
      (id : ℕ) (o : Option Bp) (s : Sdb os.World)
      → IsSome o
      → IsCovered files s
      → Total (IsCovered files) ((say "**   del bp @ " >> del_entry os id o) s)
  unfolding say write_cout ◌>>◌
  del_listed-Total id o s h i = del_entry-Total id o _ h (record { covered = i.covered })

  del-Total :
      (id : ℕ) (s : Sdb os.World)
      → (find_id id s.bp_list ≡ true → IsSome (get_elem? s.bp_list id))
      → IsCovered files s
      → Total (IsCovered files) (del os id s)
  unfolding del del_running when_running get ◌>>=◌
  del-Total id s h i = elim (Bool-cases (is_running s.state)) [
    | inr e ↦ rw (e, when_running) ((Safe-say files _).run s i)
    | inl e ↦
        rw (e, when_running)
          (elim (Bool-cases (find_id id s.bp_list)) [
            | inr f ↦ rw f ((Safe-say files _).run s i)
            | inl f ↦ rw f (del_listed-Total id (get_elem? s.bp_list id) s (h f) i)
          ])
  ]

  exec-Total :
      (c : Command) (s : Sdb os.World)
      → IsOrdinary c
      → IsDeletable c s
      → IsCovered files s
      → Total (IsCovered files) (exec os c s)
  unfolding exec
  exec-Total (break_cmd addr) s o d = (Safe-bp os files H addr).run s
  exec-Total cont_cmd s o d = (Safe-cont os files H).run s
  exec-Total delete_without_id s o d = (Safe-say files _).run s
  exec-Total (delete_cmd id) s o d = del-Total id s d
  exec-Total (disasm_cmd addr) s o d = (Safe-disasm os files H addr _ (omega arith)).run s
  exec-Total (dump_cmd addr) s o d = (Safe-dump os files H addr).run s
  exec-Total exit_cmd s o d = absurd o
  exec-Total (get_cmd reg) s o d = (Safe-get_reg os files H reg).run s
  exec-Total getregs_cmd s o d = (Safe-getregs os files H).run s
  exec-Total help_cmd s o d = (Safe-write_cerr files _).run s
  exec-Total list_cmd s o d = (Safe-list_bps os files H).run s
  exec-Total (load_cmd path) s o d = absurd o
  exec-Total run_cmd s o d = (Safe-run os files H).run s
  exec-Total vmmap_cmd s o d = absurd o
  exec-Total (set_cmd reg val) s o d = (Safe-set_reg os files H reg val).run s
  exec-Total si_cmd s o d = (Safe-si os files H).run s
  exec-Total start_cmd s o d = (Safe-start os files H).run s
  exec-Total other_cmd s o d = (Safe-write_cerr files _).run s

  -- Where no call of the kernel fails, files stay readable as they are, capstone reads at most 15 bytes
  -- for an instruction, and the bytes of the program reach 150 bytes behind its section .text: every
  -- command but `exit`, `load`, `vmmap` and a `delete` of a listed id that is no index of the table
  -- returns, in any state and with any arguments, into a state of which the same holds.
  pub exec-returns :
      (c : Command) (s : Sdb os.World)
      → IsOrdinary c
      → IsDeletable c s
      → IsCovered files s
      → Returned files (exec os c s)
  exec-returns c s o d i = Returned-of_Total files _ (exec-Total c s o d i)
