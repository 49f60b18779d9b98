-- ===== src/Debugger/Progress/Control.antt =====
-- Break points and the child of project4/hw4.cpp: their functions return.
use nctu_unixprog.Base.{arith, ℕ, List, [], ◌∷◌, String, ltb}
use nctu_unixprog.Debugger.Os.{Os, Regs}
use nctu_unixprog.Debugger.State.{M, Bp, Mode, nonload, loaded, running}
use nctu_unixprog.Debugger.Disasm.{disasm}
use nctu_unixprog.Debugger.Breaks.{
  poke, bp, bp_running, set_trap, record_bp, append_bp, rearm, chkbp,
}
use nctu_unixprog.Debugger.Regs.{fetch_regs, store_regs}
use nctu_unixprog.Debugger.Control.{
  report_exit, hit, hit_if, hits, report_trap, report_stop, chkstat, si, cont, start_child,
  start_loaded, start_in, start, run_in, run,
}
use nctu_unixprog.Debugger.Progress.{
  IsHealthy, Safe, Safe->>=, Safe->>, Safe-get, Safe-pure, Safe-if, Safe-modify, Safe-when_running,
  Safe-say, Safe-write_cout, Safe-sys, Safe-ask, Safe-sys_result, IsCovered, safe_rules,
}
use nctu_unixprog.Debugger.Progress.Disassembly.{Safe-disasm}

module _ (os : Os) (files : List ℕ → List ℕ) (H : IsHealthy os files) where
  abbrev pub Returning : {A : Type 0} → M os.World A → Type 0
  Returning m = Safe (IsCovered files) m

  pub Safe-poke : (f : String) (a v : ℕ) → Returning (poke os f a v)
  unfolding poke
  Safe-poke f a v =
      Safe->>= _ _ Safe-get λ s. Safe-sys os files f _ (λ w. H.poketext_ok w s.pid a v)

  pub Safe-fetch_regs : Returning (fetch_regs os)
  unfolding fetch_regs
  Safe-fetch_regs = Safe->>= _ _ Safe-get λ s. Safe-ask os files _ _ (λ w. H.getregs_ok w s.pid)

  pub Safe-store_regs : (r : Regs) → Returning (store_regs os r)
  unfolding store_regs
  Safe-store_regs r = Safe->>= _ _ Safe-get λ s. Safe-sys os files _ _ (λ w. H.setregs_ok w s.pid r)

  ruleset call_rules = (safe_rules, Safe-poke, Safe-fetch_regs, Safe-store_regs)

  Safe-disasm_call : (a : ℕ) → Returning (disasm os a 1)
  Safe-disasm_call a = Safe-disasm os files H a 1 (omega arith)

  Safe-append_bp : (a c : ℕ) → Returning (append_bp os a c)
  unfolding append_bp
  Safe-append_bp a c =
      Safe->> _ _ (Safe-modify _ (λ s i. record { covered = i.covered }))
        (search (safe_rules, Safe-disasm_call))

  Safe-record_bp : (a c : ℕ) → Returning (record_bp os a c)
  unfolding record_bp
  Safe-record_bp a c = search (safe_rules, Safe-append_bp)

  pub Safe-bp : (a : ℕ) → Returning (bp os a)
  unfolding bp bp_running set_trap
  Safe-bp a = search (safe_rules, Safe-poke, Safe-record_bp) depth 12

  Safe-rearm : (rip : ℕ) (bs : List Bp) → Returning (rearm os rip bs)
  unfolding rearm
  Safe-rearm rip [] = Safe-pure tt
  Safe-rearm rip (b ∷ bs) =
      Safe->> _ _ (Safe-if (ltb rip b.addr) _ _ (Safe-bp b.addr) (Safe-pure tt)) (Safe-rearm rip bs)

  Safe-chkbp : Returning (chkbp os)
  unfolding chkbp
  Safe-chkbp = search (call_rules, Safe-rearm)

  Safe-hit_if : (b : Bp) (regs : Regs) → Returning (hit_if os b regs)
  unfolding hit_if hit
  Safe-hit_if b regs = search (call_rules, Safe-disasm_call) depth 9

  Safe-hits : (bs : List Bp) (regs : Regs) → Returning (hits os bs regs)
  unfolding hits
  Safe-hits [] regs = Safe-pure tt
  Safe-hits (b ∷ bs) regs = Safe->>= _ _ (Safe-hit_if b regs) (λ r. Safe-hits bs r)

  Safe-report_exit : (status : ℕ) → Returning (report_exit os status)
  unfolding report_exit
  Safe-report_exit status = Safe->>= _ _ Safe-get λ s.
      Safe->> _ _ (Safe-write_cout files _) (Safe-modify _ (λ t i. record { covered = i.covered }))

  Safe-report_stop : (status : ℕ) → Returning (report_stop os status)
  unfolding report_stop report_trap
  Safe-report_stop status = search (call_rules, Safe-hits) depth 9

  Safe-chkstat : Returning (chkstat os)
  unfolding chkstat
  Safe-chkstat = Safe->>= _ _ Safe-get λ s.
      Safe->>= _ _ (Safe-sys_result os files _ _ (λ w. H.waitpid_ok w s.pid))
        λ status. search (call_rules, Safe-report_exit, Safe-report_stop)

  pub Safe-si : Returning (si os)
  unfolding si
  Safe-si = Safe-when_running _ _ (Safe-say files _) (
      Safe->> _ _ Safe-chkbp (
        Safe->>= _ _ Safe-get
          λ s. Safe->> _ _ (Safe-sys os files _ _ (λ w. H.singlestep_ok w s.pid)) Safe-chkstat))

  pub Safe-cont : Returning (cont os)
  unfolding cont
  Safe-cont = Safe-when_running _ _ (Safe-say files _) (
      Safe->> _ _ Safe-chkbp (
        Safe->>= _ _ Safe-get
          λ s. Safe->> _ _ (Safe-sys os files _ _ (λ w. H.resume_ok w s.pid)) Safe-chkstat))

  Safe-start_child : Returning (start_child os)
  unfolding start_child
  Safe-start_child = Safe->>= _ _ Safe-get λ s.
      Safe->>= _ _ (Safe-sys_result os files _ _ (λ w. H.spawn_ok w s.file_path)) λ child.
        Safe->> _ _ (Safe-modify _ (λ t i. record { covered = i.covered })) (
          Safe->>= _ _ (Safe-sys_result os files _ _ (λ w. H.waitpid_ok w child)) λ status.
            Safe->> _ _ (Safe-sys os files _ _ (λ w. H.setoptions_ok w child)) (
              Safe->> _ _ (Safe-write_cout files _)
                (Safe-modify _ (λ t i. record { covered = i.covered }))))

  Safe-start_in : (m : Mode) → Returning (start_in os m)
  unfolding start_in start_loaded
  Safe-start_in loaded = search (safe_rules, Safe-start_child)
  Safe-start_in running = Safe-say files _
  Safe-start_in nonload = Safe-say files _

  pub Safe-start : Returning (start os)
  unfolding start
  Safe-start = search (safe_rules, Safe-start_in)

  Safe-run_in : (m : Mode) → Returning (run_in os m)
  unfolding run_in
  Safe-run_in running = Safe-cont
  Safe-run_in loaded = search (safe_rules, Safe-start, Safe-cont)
  Safe-run_in nonload = Safe-say files _

  pub Safe-run : Returning (run os)
  unfolding run
  Safe-run = search (safe_rules, Safe-run_in)
