-- ===== src/Debugger/Machine.antt =====
-- The states of project4/hw4.cpp as an abstract machine over the state and the child's pid. The
-- children show that every command refines it.
pub mod Loads
pub mod Starts
pub mod Commands
use nctu_unixprog.Base.{
  arith, ltb, String, ◌==◌, ℕ, ◌≡◌, refl, sym, ◌∙◌, subst, ◌≢◌, ◌⊎◌, inl, inr, Bool, true, false,
  Option, none, some, List, [], ◌∷◌, if◌then◌else◌, Bool-cases,
}
use nctu_unixprog.Debugger.Os.{Os}
use nctu_unixprog.Debugger.State.{
  M, Sdb, Mode, nonload, loaded, running, Outcome, ok, exited, undefined, ◌>>=◌, ◌>>◌, pure, get,
  modify, exit, say, write_cout, sys, sys_result, error, ask, when_running, is_running,
}
use nctu_unixprog.Debugger.Keeps.{
  Post, Post-mono, Keeps, Keeps-ok, Keeps-mono, IsPreorder, Same, same_rules, Same-say, Keeps->>=,
  Keeps->>, Keeps-get, Keeps-modify, Keeps-pure, Keeps-if, Same-write_cout, Same-sys_result,
  Same-sys, Same-write_cerr, Same-IsPreorder, Keeps-exit, Keeps-get->>=, Keeps-when_running,
  Keeps-running, Post-sys_result, Post-sys, Keeps-error, Keeps-undefined_behaviour,
}
use nctu_unixprog.Debugger.Quiet.{
  Same-fetch_regs, Same-poke, Same-disasm, Same-report_trap, Same-list_bps, Same-get_reg,
  Same-set_reg, Same-getregs, Same-dump, Same-vmmap,
}
use nctu_unixprog.Debugger.Breaks.{
  bp, bp_running, set_trap, record_bp, append_bp, del, del_running, del_entry, rearm, chkbp, poke,
}
use nctu_unixprog.Debugger.Control.{
  report_exit, report_stop, chkstat, si, cont, start, start_in, start_loaded, start_child, run,
  run_in, quit,
}
use nctu_unixprog.Stream.{Ostream}
use nctu_unixprog.Debugger.Load.{
  Search, found, missing, outside, load, load_in, load_file, load_header, load_sections, found_text,
  finish,
}
use nctu_unixprog.Debugger.Command.{
  parse_line, break_cmd, cont_cmd, delete_without_id, delete_cmd, disasm_cmd, dump_cmd, exit_cmd,
  get_cmd, getregs_cmd, help_cmd, list_cmd, load_cmd, run_cmd, vmmap_cmd, set_cmd, si_cmd,
  start_cmd, other_cmd, Command, exec, read_args, run_script, run_lines, main,
}
use nctu_unixprog.Debugger.Steady.{
  Steady, Steady-IsPreorder, Steady-of_Same, Steady-bp, Steady-del, StaysOrEnds, Ended, Stays-go,
  steady_rules,
}

-- The abstract machine.
pub record View : Type 0 where
  pub mode : Mode
  pub child : ℕ

abbrev pub view : {W : Type 0} → Sdb W → View
view s = record { mode = s.state; child = s.pid }

pub data Change (v w : View) : Type 0 where
  loads : v.mode ≡ nonload → w.mode ≡ loaded → w.child ≡ v.child → Change v w
  reloads : v.mode ≡ running → w.mode ≡ loaded → w.child ≡ v.child → Change v w
  starts : v.mode ≡ loaded → v.child ≡ 0 → w.mode ≡ running → w.child ≢ 0 → Change v w
  ends : v.mode ≡ running → w.mode ≡ loaded → w.child ≡ 0 → Change v w

pub data Reaches (v : View) : View → Type 0 where
  here : {w : View} → w ≡ v → Reaches v w
  next : {u w : View} → Reaches v u → Change u w → Reaches v w

Reaches-trans : {u v w : View} → Reaches u v → Reaches v w → Reaches u w
Reaches-trans {u} r (here e) = subst (Reaches u) (sym e) r
Reaches-trans r (next q c) = next (Reaches-trans r q) c

abbrev pub Refines : {W : Type 0} → Sdb W → Sdb W → Type 0
Refines s t = Reaches (view s) (view t)

pub Refines-IsPreorder : {W : Type 0} → IsPreorder (Refines {W = W})
Refines-IsPreorder = record {
  rel_refl = λ s. here refl;
  rel_trans = λ s t u h k. Reaches-trans h k;
}

view_of_Steady : {W : Type 0} (s t : Sdb W) → Steady s t → Reaches (view s) (view t)
view_of_Steady s t h = here (ground arith)

pub Refines-of_Steady : {W A : Type 0} (m : M W A) → Keeps Steady m → Keeps Refines m
Refines-of_Steady m = Keeps-mono view_of_Steady

pub refines_of_end :
    {W : Type 0} (s t : Sdb W) → s.state ≡ running → StaysOrEnds s t → Reaches (view s) (view t)
refines_of_end s t r (inl h) = view_of_Steady s t h
refines_of_end s t r (inr h) = next (here refl) (ends r h.ended_state h.ended_pid)

pub quiet : {W A : Type 0} (m : M W A) → Keeps Same m → Keeps Refines m
quiet m h = Refines-of_Steady m (Steady-of_Same m h)
