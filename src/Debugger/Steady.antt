-- ===== src/Debugger/Steady.antt =====
-- Which functions of project4/hw4.cpp leave the state and the child's pid alone, and which can end
-- the child.
use nctu_unixprog.Base.{
  arith, ltb, String, ℕ, ◌≡◌, ◌⊎◌, inl, inr, Option, none, some, List, [], ◌∷◌,
}
use nctu_unixprog.Debugger.Os.{Os}
use nctu_unixprog.Debugger.State.{M, Sdb, loaded, ◌>>=◌, ◌>>◌, get, sys}
use nctu_unixprog.Debugger.Keeps.{
  Post, Post-mono, Keeps, Keeps-ok, Keeps-mono, IsPreorder, Same, same_rules, Same-say, Keeps->>=,
  Keeps->>, Keeps-get, Keeps-modify, Keeps-pure, Keeps-if, Same-write_cout, Same-sys_result,
  Same-sys, Same-write_cerr, Same-IsPreorder, Keeps-exit, Keeps-get->>=, Keeps-when_running,
  Keeps-error, Keeps-undefined_behaviour,
}
use nctu_unixprog.Debugger.Quiet.{
  Same-fetch_regs, Same-poke, Same-disasm, Same-report_trap, Same-list_bps, Same-get_reg,
  Same-set_reg, Same-getregs, Same-dump, Same-vmmap,
}
use nctu_unixprog.Debugger.Breaks.{
  bp, bp_running, set_trap, record_bp, append_bp, del, del_running, del_entry, rearm, chkbp,
}
use nctu_unixprog.Debugger.Control.{report_exit, report_stop, chkstat}

-- What a command leaves alone that touches neither the state nor the child's pid.
pub record Steady {W : Type 0} (s t : Sdb W) : Type 0 where
  pub steady_state : t.state ≡ s.state
  pub steady_pid : t.pid ≡ s.pid

pub Steady-IsPreorder : {W : Type 0} → IsPreorder (Steady {W = W})
Steady-IsPreorder = record { rel_refl = λ s. ground arith; rel_trans = λ s t u h k. ground arith }

pub Steady-of_Same : {W A : Type 0} (m : M W A) → Keeps Same m → Keeps Steady m
Steady-of_Same m = Keeps-mono (λ s t h. ground arith)

pub ruleset steady_rules = (
  Steady-IsPreorder, Keeps->>=, Keeps->>, Keeps-pure, Keeps-get, Keeps-if, Keeps-when_running,
  Keeps-exit, Keeps-error, Keeps-undefined_behaviour, Steady-of_Same, Same-say, Same-write_cout,
  Same-write_cerr, Same-sys, Same-sys_result, Same-fetch_regs, Same-poke, Same-disasm,
)

module _ (os : Os) where
  pub Steady-append_bp : (a c : ℕ) → Keeps Steady (append_bp os a c)
  unfolding append_bp
  Steady-append_bp a c =
      Keeps->> Steady-IsPreorder _ _ (Keeps-modify _ (λ s. ground arith)) (search steady_rules)

  pub Steady-bp : (a : ℕ) → Keeps Steady (bp os a)
  unfolding bp bp_running set_trap record_bp
  Steady-bp a = search (steady_rules, Steady-append_bp) depth 12

  Steady-del_entry : (id : ℕ) (o : Option _) → Keeps Steady (del_entry os id o)
  unfolding del_entry
  Steady-del_entry id none = search steady_rules
  Steady-del_entry id (some b) =
      Keeps->> Steady-IsPreorder _ _ (search steady_rules)
        (Keeps->> Steady-IsPreorder _ _ (search steady_rules) (Keeps-modify _ (λ s. ground arith)))

  pub Steady-del : (id : ℕ) → Keeps Steady (del os id)
  unfolding del del_running
  Steady-del id = search (steady_rules, Steady-del_entry) depth 9

  Steady-rearm : (rip : ℕ) (bs : List _) → Keeps Steady (rearm os rip bs)
  unfolding rearm
  Steady-rearm rip [] = search steady_rules
  Steady-rearm rip (b ∷ bs) =
      Keeps->> Steady-IsPreorder _ _
        (Keeps-if (ltb rip b.addr) _ _ (Steady-bp b.addr) (Keeps-pure Steady-IsPreorder tt))
        (Steady-rearm rip bs)

  pub Steady-chkbp : Keeps Steady (chkbp os)
  unfolding chkbp
  Steady-chkbp = search (steady_rules, Steady-rearm)

-- The status that `waitpid` gives may end the child.
pub record Ended {W : Type 0} (t : Sdb W) : Type 0 where
  pub ended_state : t.state ≡ loaded
  pub ended_pid : t.pid ≡ 0

abbrev pub StaysOrEnds : {W : Type 0} → Sdb W → Sdb W → Type 0
StaysOrEnds s t = Steady s t ⊎ Ended t

pub StaysOrEnds-IsPreorder : {W : Type 0} → IsPreorder (StaysOrEnds {W = W})
StaysOrEnds-IsPreorder = record {
  rel_refl = λ s. inl (Steady-IsPreorder.rel_refl s);
  rel_trans = trans;
}
  where
    trans : {W : Type 0} (s t u : Sdb W) → StaysOrEnds s t → StaysOrEnds t u → StaysOrEnds s u
    trans s t u (inl h) (inl k) = inl (Steady-IsPreorder.rel_trans s t u h k)
    trans s t u h (inr k) = inr k
    trans s t u (inr h) (inl k) = inr (ground arith)

pub stays : {W A : Type 0} (m : M W A) → Keeps Steady m → Keeps StaysOrEnds m
stays m = Keeps-mono (λ s t h. inl h)

module _ (os : Os) where
  Stays-report_exit : (n : ℕ) → Keeps StaysOrEnds (report_exit os n)
  unfolding report_exit
  Stays-report_exit n = Keeps->>= StaysOrEnds-IsPreorder _ _ (Keeps-get StaysOrEnds-IsPreorder) λ s.
      Keeps->> StaysOrEnds-IsPreorder _ _ (stays _ (Steady-of_Same _ (Same-write_cout _)))
        (Keeps-modify _ (λ t. inr (ground arith)))

  Steady-report_stop : (n : ℕ) → Keeps Steady (report_stop os n)
  unfolding report_stop
  Steady-report_stop n = search (steady_rules, Same-report_trap)

  pub Stays-chkstat : Keeps StaysOrEnds (chkstat os)
  unfolding chkstat
  Stays-chkstat = Keeps->>= P _ _ (Keeps-get P) λ s.
      Keeps->>= P _ _ (stays _ (Steady-of_Same _ (Same-sys_result os _ _ _))) λ status.
        Keeps->> P _ _ (Keeps-if _ _ _ (Stays-report_exit status) (Keeps-pure P tt))
          (Keeps-if _ _ _ (stays _ (Steady-report_stop status)) (Keeps-pure P tt))
    where
      P : IsPreorder (StaysOrEnds {W = os.World})
      P = StaysOrEnds-IsPreorder

  -- `chkbp`, a ptrace call that lets the child run, and `chkstat`.
  pub Stays-go :
      (f : String) (call : Sdb os.World → os.World → Option os.World)
      → Keeps StaysOrEnds (chkbp os >> (get >>= λ s. sys os f (call s) >> chkstat os))
  Stays-go f call = Keeps->> P _ _ (stays _ (Steady-chkbp os)) (
      Keeps->>= P _ _ (Keeps-get P)
        λ s. Keeps->> P _ _ (stays _ (Steady-of_Same _ (Same-sys os _ _))) Stays-chkstat)
    where
      P : IsPreorder (StaysOrEnds {W = os.World})
      P = StaysOrEnds-IsPreorder
