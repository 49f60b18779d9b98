-- ===== src/Debugger/Guards.antt =====
-- The states in which project4/README.md allows a command, and what hw4.cpp does in the others.
use nctu_unixprog.Base.{ℕ, ◌≡◌, refl, Bool, true, false, String, List, if◌then◌else◌}
use nctu_unixprog.Stream.{put}
use nctu_unixprog.Debugger.Os.{Os}
use nctu_unixprog.Debugger.State.{
  M, Sdb, Mode, nonload, loaded, running, ok, ◌>>=◌, ◌>>◌, get, modify, say, when_running,
  is_running,
}
use nctu_unixprog.Debugger.Regs.{get_reg, set_reg, getregs}
use nctu_unixprog.Debugger.Disasm.{disasm}
use nctu_unixprog.Debugger.Breaks.{bp, del}
use nctu_unixprog.Debugger.Control.{si, cont, start, start_in, run, run_in}
use nctu_unixprog.Debugger.Memory.{dump, vmmap}
use nctu_unixprog.Debugger.Load.{load, load_in}
use nctu_unixprog.Debugger.Command.{
  Command, break_cmd, cont_cmd, delete_without_id, delete_cmd, disasm_cmd, dump_cmd, exit_cmd,
  get_cmd, getregs_cmd, help_cmd, list_cmd, load_cmd, run_cmd, vmmap_cmd, set_cmd, si_cmd,
  start_cmd, other_cmd, exec,
}

abbrev in_running : Mode → Bool
in_running running = true
in_running _ = false

-- The states in brackets behind each command of the README; `not loaded` of `load` is NONLOAD.
abbrev pub documented : Command → Mode → Bool
documented (break_cmd addr) m = in_running m
documented cont_cmd m = in_running m
documented delete_without_id m = in_running m
documented (delete_cmd id) m = in_running m
documented (disasm_cmd addr) m = in_running m
documented (dump_cmd addr) m = in_running m
documented exit_cmd m = true
documented (get_cmd reg) m = in_running m
documented getregs_cmd m = in_running m
documented help_cmd m = true
documented list_cmd m = true
documented (load_cmd path) nonload = true
documented (load_cmd path) m = false
documented run_cmd nonload = false
documented run_cmd m = true
documented vmmap_cmd m = in_running m
documented (set_cmd reg val) m = in_running m
documented si_cmd m = in_running m
documented start_cmd loaded = true
documented start_cmd m = false
documented other_cmd m = true

-- The one command that hw4.cpp accepts in a state that the README does not list for it.
abbrev pub loads_running : Command → Mode → Bool
loads_running (load_cmd path) running = true
loads_running c m = false

-- The path of `load` is stored before the state is looked at.
abbrev pub stored_path : {W : Type 0} → Command → Sdb W → List ℕ
stored_path (load_cmd path) s = path
stored_path c s = s.file_path

-- A command that was refused: one message on cout, and nothing else changed.
abbrev pub Refused : (os : Os) → Command → Sdb os.World → Type 0
Refused os c s =
    (message : String) × (exec os c s
      ≡ ok tt (record s { file_path = stored_path c s; cout = put 0 message s.cout }))

module _ (os : Os) (s : Sdb os.World) where
  pub when_running-refuses :
      (message : String) (m : M os.World (Unit {0}))
      → in_running s.state ≡ false
      → when_running message m s ≡ ok tt (record s { cout = put 0 message s.cout })
  unfolding when_running is_running say
  when_running-refuses message m h = by_mode s.state h
    where
      by_mode :
          (k : Mode)
          → in_running k ≡ false
          → (if is_running k then m s else say message s)
            ≡ ok tt (record s { cout = put 0 message s.cout })
      by_mode running e = cc
      by_mode loaded e = refl
      by_mode nonload e = refl

  exec-refuses_in :
      (c : Command) (m : Mode)
      → s.state ≡ m
      → documented c m ≡ false
      → loads_running c m ≡ false
      → Refused os c s
  unfolding exec bp del disasm dump get_reg getregs vmmap set_reg si cont ◌>>=◌ ◌>>◌ get modify say
      load start run
  exec-refuses_in (load_cmd path) loaded e d l =
      ("**   The state is already LOADED!\n", rw (e, load_in) refl)
  exec-refuses_in (load_cmd path) nonload e d l = cc
  exec-refuses_in (load_cmd path) running e d l = cc
  exec-refuses_in run_cmd nonload e d l =
      ("**   The state should be RUNNING or LOADED!\n", rw (e, run_in) refl)
  exec-refuses_in run_cmd loaded e d l = cc
  exec-refuses_in run_cmd running e d l = cc
  exec-refuses_in start_cmd nonload e d l = ("** The state is not LOADED!\n", rw (e, start_in) refl)
  exec-refuses_in start_cmd loaded e d l = cc
  exec-refuses_in start_cmd running e d l = ("** The state is not LOADED!\n", rw (e, start_in) refl)
  exec-refuses_in (break_cmd addr) m e d l = (_, when_running-refuses _ _ (rw e d))
  exec-refuses_in cont_cmd m e d l = (_, when_running-refuses _ _ (rw e d))
  exec-refuses_in (delete_cmd id) m e d l = (_, when_running-refuses _ _ (rw e d))
  exec-refuses_in (disasm_cmd addr) m e d l = (_, when_running-refuses _ _ (rw e d))
  exec-refuses_in (dump_cmd addr) m e d l = (_, when_running-refuses _ _ (rw e d))
  exec-refuses_in (get_cmd reg) m e d l = (_, when_running-refuses _ _ (rw e d))
  exec-refuses_in getregs_cmd m e d l = (_, when_running-refuses _ _ (rw e d))
  exec-refuses_in vmmap_cmd m e d l = (_, when_running-refuses _ _ (rw e d))
  exec-refuses_in (set_cmd reg val) m e d l = (_, when_running-refuses _ _ (rw e d))
  exec-refuses_in si_cmd m e d l = (_, when_running-refuses _ _ (rw e d))
  exec-refuses_in delete_without_id m e d l = (_, refl)
  exec-refuses_in exit_cmd m e d l = cc
  exec-refuses_in help_cmd m e d l = cc
  exec-refuses_in list_cmd m e d l = cc
  exec-refuses_in other_cmd m e d l = cc

  -- In a state that the README does not list for it, a command other than `load` in RUNNING returns,
  -- prints one message on cout and changes nothing else, but that `load` in LOADED stores its path.
  pub exec-refuses :
      (c : Command)
      → documented c s.state ≡ false
      → loads_running c s.state ≡ false
      → Refused os c s
  exec-refuses c d l = exec-refuses_in c s.state refl d l
