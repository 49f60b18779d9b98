-- ===== src/Debugger/Machine/Starts.antt =====
-- `cont`, `si`, `start`, `run` and `quit` of project4/hw4.cpp in the abstract machine.
use nctu_unixprog.Base.{
  arith, String, ◌==◌, ℕ, ◌≡◌, refl, ◌≢◌, inl, inr, true, Option, none, some, List, Bool-cases,
}
use nctu_unixprog.Debugger.Os.{Os}
use nctu_unixprog.Debugger.State.{
  Sdb, Mode, nonload, loaded, running, ◌>>=◌, ◌>>◌, get, modify, exit, say, write_cout, sys,
  when_running, is_running,
}
use nctu_unixprog.Debugger.Keeps.{
  Post, Post-mono, Keeps, Same-say, Keeps->>, Same-write_cerr, Keeps-get->>=, Keeps-running,
  Post-sys_result, Post-sys,
}
use nctu_unixprog.Debugger.Breaks.{chkbp}
use nctu_unixprog.Debugger.Control.{
  chkstat, si, cont, start, start_in, start_loaded, start_child, run, run_in, quit,
}
use nctu_unixprog.Debugger.Steady.{Steady-of_Same, StaysOrEnds, Stays-go}
use nctu_unixprog.Debugger.Machine.{
  starts, here, next, Refines, Refines-IsPreorder, Refines-of_Steady, refines_of_end,
}

module _ (os : Os) where
  -- The pid of a child is not 0: `fork` returns 0 to the child alone.
  abbrev pub IsChild : Option (ℕ × os.World) → Type 0
  IsChild none = Unit
  IsChild (some (p, w)) = p ≢ 0

  abbrev pub IsFork : Type 0
  IsFork = (w : os.World) (path : List ℕ) → IsChild (os.spawn w path)

  running_of_test : (m : Mode) → is_running m ≡ true → m ≡ running
  unfolding is_running
  running_of_test running e = refl
  running_of_test nonload e = cc
  running_of_test loaded e = cc

  Refines-go :
      (message f : String) (call : Sdb os.World → os.World → Option os.World)
      → Keeps Refines
          (when_running message (chkbp os >> (get >>= λ s. sys os f (call s) >> chkstat os)))
  Refines-go message f call =
      Keeps-running message _ (Refines-of_Steady _ (Steady-of_Same _ (Same-say message))) λ s r.
        Post-mono (StaysOrEnds s) (Refines s) _
          (λ t. refines_of_end s t (running_of_test s.state r)) ((Stays-go os f call).apply s)

  pub Refines-cont : Keeps Refines (cont os)
  unfolding cont
  Refines-cont = Refines-go _ _ _

  pub Refines-si : Keeps Refines (si os)
  unfolding si
  Refines-si = Refines-go _ _ _

  -- A child that is started from LOADED, if there is none.
  Refines-start_child :
      IsFork
      → (s : Sdb os.World) → s.state ≡ loaded
      → s.pid ≡ 0
      → Post (Refines s) (start_child os s)
  unfolding start_child write_cout get modify ◌>>=◌ ◌>>◌
  Refines-start_child fork s l z = Post-sys_result os _ s _ _ _ λ child w e.
      Post-sys_result os _ (record s { world = w; pid = child }) _ _ _
        λ status w2 e2.
          Post-sys os _ (record s { world = w2; pid = child }) _ _ _
            λ w3 e3. next (here refl) (starts l z refl (rw e at (fork s.world s.file_path)))

  Refines-start_loaded :
      IsFork → (s : Sdb os.World) → s.state ≡ loaded → Post (Refines s) (start_loaded os s)
  unfolding start_loaded get ◌>>=◌
  Refines-start_loaded fork s l = elim (Bool-cases (s.pid == 0)) [
    | inl z ↦ rw z (Refines-start_child fork s l (ground arith))
    | inr n ↦ rw n ((Refines-of_Steady _ (Steady-of_Same _ (Same-write_cerr _))).apply s)
  ]

  pub Refines-start : IsFork → Keeps Refines (start os)
  unfolding start
  Refines-start fork = Keeps-get->>= _ λ s. by_mode s s.state refl
    where
      says : Keeps (Refines {W = os.World}) (say "** The state is not LOADED!\n")
      says = Refines-of_Steady _ (Steady-of_Same _ (Same-say _))

      by_mode : (s : Sdb os.World) (m : Mode) → s.state ≡ m → Post (Refines s) (start_in os m s)
      by_mode s loaded e = Refines-start_loaded fork s e
      by_mode s nonload e = says.apply s
      by_mode s running e = says.apply s

  pub Refines-run : IsFork → Keeps Refines (run os)
  unfolding run run_in
  Refines-run fork = Keeps-get->>= _ λ s. (by_mode s.state).apply s
    where
      by_mode : (m : Mode) → Keeps Refines (run_in os m)
      by_mode running = Refines-cont
      by_mode loaded = Keeps->> Refines-IsPreorder _ _ (Refines-start fork) Refines-cont
      by_mode nonload = Refines-of_Steady _ (Steady-of_Same _ (Same-say _))

  pub Refines-quit : Keeps Refines (quit os)
  unfolding quit modify exit ◌>>◌
  Refines-quit = record { apply = λ s. tt }
