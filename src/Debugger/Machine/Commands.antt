-- ===== src/Debugger/Machine/Commands.antt =====
-- All commands and whole sessions of project4/hw4.cpp in the abstract machine.
use nctu_unixprog.Base.{some, subst, ap, arith, ℕ, ◌≡◌, sym, ◌∙◌, ◌≢◌, List, [], ◌∷◌}
use nctu_unixprog.Debugger.Os.{Os}
use nctu_unixprog.Debugger.State.{Sdb, nonload, loaded, running, ok}
use nctu_unixprog.Debugger.Keeps.{Post, Keeps, Keeps-ok, Same-say, Keeps->>, Same-write_cerr}
use nctu_unixprog.Debugger.Quiet.{
  Same-disasm, Same-list_bps, Same-get_reg, Same-set_reg, Same-getregs, Same-dump, Same-vmmap,
}
use nctu_unixprog.Debugger.Command.{
  parse_line, break_cmd, cont_cmd, delete_without_id, delete_cmd, disasm_cmd, dump_cmd, exit_cmd,
  get_cmd, getregs_cmd, help_cmd, list_cmd, load_cmd, run_cmd, vmmap_cmd, set_cmd, si_cmd,
  start_cmd, other_cmd, Command, exec, run_lines,
}
use nctu_unixprog.Debugger.Steady.{Steady-bp, Steady-del}
use nctu_unixprog.Debugger.Machine.{
  View, view, Change, loads, reloads, starts, ends, Reaches, here, next, Refines,
  Refines-IsPreorder, Refines-of_Steady, quiet,
}
use nctu_unixprog.Debugger.Machine.Loads.{Loads, Loads-load_cmd, load_cmd-loaded, Refines-load_cmd}
use nctu_unixprog.Debugger.Machine.Starts.{
  IsFork, Refines-cont, Refines-si, Refines-start, Refines-run, Refines-quit,
}

module _ (os : Os) where
  -- Each command makes the moves of the abstract machine, or none.
  pub Refines-exec : IsFork os → (c : Command) → Keeps Refines (exec os c)
  unfolding exec
  Refines-exec fork (break_cmd addr) = Refines-of_Steady _ (Steady-bp os addr)
  Refines-exec fork cont_cmd = Refines-cont os
  Refines-exec fork delete_without_id = quiet _ (Same-say _)
  Refines-exec fork (delete_cmd id) = Refines-of_Steady _ (Steady-del os id)
  Refines-exec fork (disasm_cmd addr) = quiet _ (Same-disasm os addr _)
  Refines-exec fork (dump_cmd addr) = quiet _ (Same-dump os addr)
  Refines-exec fork exit_cmd = Refines-quit os
  Refines-exec fork (get_cmd reg) = quiet _ (Same-get_reg os reg)
  Refines-exec fork getregs_cmd = quiet _ (Same-getregs os)
  Refines-exec fork help_cmd = quiet _ (Same-write_cerr _)
  Refines-exec fork list_cmd = quiet _ (Same-list_bps os)
  Refines-exec fork (load_cmd path) = Refines-load_cmd os path
  Refines-exec fork run_cmd = Refines-run os fork
  Refines-exec fork vmmap_cmd = quiet _ (Same-vmmap os)
  Refines-exec fork (set_cmd reg val) = quiet _ (Same-set_reg os reg val)
  Refines-exec fork si_cmd = Refines-si os
  Refines-exec fork start_cmd = Refines-start os fork
  Refines-exec fork other_cmd = quiet _ (Same-write_cerr _)

  -- So does a whole session.
  pub Refines-run_lines : IsFork os → (ls : List (List ℕ)) → Keeps Refines (run_lines os ls)
  unfolding run_lines
  Refines-run_lines fork [] = quiet _ (Same-say _)
  Refines-run_lines fork (l ∷ ls) = Keeps->> Refines-IsPreorder _ _ (quiet _ (Same-say _)) (
      Keeps->> Refines-IsPreorder _ _ (Refines-exec fork (parse_line l))
        (Refines-run_lines fork ls))

  -- Where `fork` gives a pid other than 0 to the parent, a command that returns has made moves
  -- of the abstract machine: NONLOAD to LOADED and RUNNING to LOADED by `load` with the pid kept,
  -- LOADED without a child to RUNNING with one, RUNNING to LOADED with the child gone, or none.
  pub exec-Reaches :
      IsFork os
      → (c : Command) (s t : Sdb os.World) → exec os c s ≡ ok tt t
      → Reaches (view s) (view t)
  exec-Reaches fork c s t e = Keeps-ok (Refines-exec fork c) s t tt e

-- RUNNING has a child, and NONLOAD has none.
pub record IsSound (v : View) : Type 0 where
  pub running_child : v.mode ≡ running → v.child ≢ 0
  pub nonload_child : v.mode ≡ nonload → v.child ≡ 0

Change-IsSound : {v w : View} → Change v w → IsSound v → IsSound w
Change-IsSound (loads a b e) h = record { running_child = λ r. cc; nonload_child = λ r. cc }
Change-IsSound (reloads a b e) h = record { running_child = λ r. cc; nonload_child = λ r. cc }
Change-IsSound (starts a z b e) h = record { running_child = λ r. e; nonload_child = λ r. cc }
Change-IsSound (ends a b e) h = record { running_child = λ r. cc; nonload_child = λ r. cc }

Reaches-IsSound : {v w : View} → Reaches v w → IsSound v → IsSound w
Reaches-IsSound (here e) h = rw e h
Reaches-IsSound (next r c) h = Change-IsSound c (Reaches-IsSound r h)

-- LOADED with a child: no move leads out.
Reaches-stuck : {v w : View} → Reaches v w → v.mode ≡ loaded → v.child ≢ 0 → w ≡ v
Reaches-stuck (here e) l n = e
Reaches-stuck {v} (next {u} r c) l n = absurd (no_move c (Reaches-stuck r l n))
  where
    no_move : {x : View} → Change u x → u ≡ v → ⊥
    no_move (loads a b e) q = cc
    no_move (reloads a b e) q = cc
    no_move (starts a z b e) q = n (sym (ap (λ y. y.child) q) ∙ z)
    no_move (ends a b e) q = cc

module _ (os : Os) (fork : IsFork os) where
  -- Where `fork` gives a pid other than 0 to the parent: if RUNNING means that there is a child and
  -- NONLOAD that there is none when a session begins, then it does so when the session, whatever its
  -- lines, has come back to the prompt.
  pub run_lines-IsSound :
      (ls : List (List ℕ)) (s t : Sdb os.World)
      → IsSound (view s)
      → run_lines os ls s ≡ ok tt t
      → IsSound (view t)
  run_lines-IsSound ls s t h e =
      Reaches-IsSound (Keeps-ok (Refines-run_lines os fork ls) s t tt e) h

  -- Where `fork` gives a pid other than 0 to the parent: in RUNNING with a child, a `load` that returns, of
  -- a file that begins like a 64-bit ELF file, leaves LOADED with the child's pid, and any session from
  -- there that comes back to the prompt is in LOADED with that pid.
  pub load_running_strands :
      (path rest : List ℕ) (ls : List (List ℕ)) (s t u : Sdb os.World)
      → s.state ≡ running
      → s.pid ≢ 0
      → os.read_file s.world path ≡ some (0x7f ∷ b'E' ∷ b'L' ∷ b'F' ∷ 2 ∷ rest)
      → exec os (load_cmd path) s ≡ ok tt t
      → run_lines os ls t ≡ ok tt u
      → (t.state ≡ loaded) × (t.pid ≡ s.pid) × (u.state ≡ loaded) × (u.pid ≡ s.pid)
  unfolding exec
  load_running_strands path rest ls s t u r n f e d =
      let kept : Loads s t = Keeps-ok (Loads-load_cmd os path) s t tt e in
      let l : t.state ≡ loaded =
        subst (Post (λ t. t.state ≡ loaded)) e (load_cmd-loaded os path rest s r f) in
      let same : view u ≡ view t =
        Reaches-stuck (Keeps-ok (Refines-run_lines os fork ls) t u tt d) l
          (ground (arith, kept.same_child)) in
      (l, kept.same_child, ground arith, ground (arith, kept.same_child))
