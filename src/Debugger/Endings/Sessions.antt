-- ===== src/Debugger/Endings/Sessions.antt =====
-- The commands and the arguments of project4/hw4.cpp: all but `exit` end the process only by an error.
use nctu_unixprog.Base.{ℕ, ◌≢◌, refl, Option, none, some, List, [], ◌∷◌, codes, text_eq}
use nctu_unixprog.Debugger.Os.{Os}
use nctu_unixprog.Debugger.State.{Mode, nonload, loaded, running}
use nctu_unixprog.Debugger.Load.{
  Search, found, missing, outside, load, load_in, load_file, load_header, load_sections, found_text,
  finish,
}
use nctu_unixprog.Debugger.Command.{
  Command, break_cmd, cont_cmd, delete_without_id, delete_cmd, disasm_cmd, dump_cmd, exit_cmd,
  get_cmd, getregs_cmd, help_cmd, list_cmd, load_cmd, run_cmd, vmmap_cmd, set_cmd, si_cmd,
  start_cmd, other_cmd, exec, read_args, open_script,
}
use nctu_unixprog.Debugger.Endings.{
  EndsClean, EndsClean->>=, EndsClean->>, EndsClean-pure, EndsClean-modify, EndsClean-write_cerr,
  EndsClean-say, EndsClean-if, clean_rules,
}
use nctu_unixprog.Debugger.Endings.Child.{
  EndsClean-bp, EndsClean-del, EndsClean-si, EndsClean-cont, EndsClean-start, EndsClean-run,
}
use nctu_unixprog.Debugger.Endings.Printing.{
  EndsClean-getregs, EndsClean-list_bps, EndsClean-disasm, EndsClean-get_reg, EndsClean-set_reg,
  EndsClean-dump, EndsClean-vmmap,
}

module _ (os : Os) where
  EndsClean-finish : (path : List ℕ) → EndsClean (finish os path)
  unfolding finish
  EndsClean-finish path = search clean_rules

  EndsClean-found_text : (path : List ℕ) (r : Search) → EndsClean (found_text os path r)
  unfolding found_text
  EndsClean-found_text path (found shdr) = search (clean_rules, EndsClean-finish)
  EndsClean-found_text path missing = EndsClean-finish path
  EndsClean-found_text path outside = search clean_rules

  EndsClean-load_sections : (path file : List ℕ) → EndsClean (load_sections os path file)
  unfolding load_sections
  EndsClean-load_sections path file = search (clean_rules, EndsClean-found_text)

  EndsClean-load_header : (path file : List ℕ) → EndsClean (load_header os path file)
  unfolding load_header
  EndsClean-load_header path file = search (clean_rules, EndsClean-load_sections) depth 9

  EndsClean-load_file : (path : List ℕ) (o : Option (List ℕ)) → EndsClean (load_file os path o)
  unfolding load_file
  EndsClean-load_file path none = search clean_rules
  EndsClean-load_file path (some file) = EndsClean-load_header path file

  EndsClean-load_in : (path : List ℕ) (m : Mode) → EndsClean (load_in os path m)
  unfolding load_in
  EndsClean-load_in path loaded = search clean_rules
  EndsClean-load_in path running = search (clean_rules, EndsClean-load_file)
  EndsClean-load_in path nonload = search (clean_rules, EndsClean-load_file)

  EndsClean-load : (path : List ℕ) → EndsClean (load os path)
  unfolding load
  EndsClean-load path = search (clean_rules, EndsClean-load_in)

  pub EndsClean-exec : (c : Command) → c ≢ exit_cmd → EndsClean (exec os c)
  unfolding exec
  EndsClean-exec (break_cmd addr) n = EndsClean-bp os addr
  EndsClean-exec cont_cmd n = EndsClean-cont os
  EndsClean-exec delete_without_id n = EndsClean-say _
  EndsClean-exec (delete_cmd id) n = EndsClean-del os id
  EndsClean-exec (disasm_cmd addr) n = EndsClean-disasm os addr _
  EndsClean-exec (dump_cmd addr) n = EndsClean-dump os addr
  EndsClean-exec exit_cmd n = absurd (n refl)
  EndsClean-exec (get_cmd reg) n = EndsClean-get_reg os reg
  EndsClean-exec getregs_cmd n = EndsClean-getregs os
  EndsClean-exec help_cmd n = EndsClean-write_cerr _
  EndsClean-exec list_cmd n = EndsClean-list_bps os
  EndsClean-exec (load_cmd path) n = search (clean_rules, EndsClean-load)
  EndsClean-exec run_cmd n = EndsClean-run os
  EndsClean-exec vmmap_cmd n = EndsClean-vmmap os
  EndsClean-exec (set_cmd reg val) n = EndsClean-set_reg os reg val
  EndsClean-exec si_cmd n = EndsClean-si os
  EndsClean-exec start_cmd n = EndsClean-start os
  EndsClean-exec other_cmd n = EndsClean-write_cerr _

  EndsClean-open_script :
      (path : List ℕ) (o : Option (List (List ℕ))) → EndsClean (open_script os path o)
  unfolding open_script
  EndsClean-open_script path none = search clean_rules
  EndsClean-open_script path (some script) = search clean_rules

  pub EndsClean-read_args :
      (argv : List (List ℕ)) (o : Option (List (List ℕ))) → EndsClean (read_args os argv o)
  unfolding read_args
  EndsClean-read_args [] o = EndsClean-pure o
  EndsClean-read_args (arg ∷ []) o = search (clean_rules, EndsClean-load)
  EndsClean-read_args (arg ∷ next ∷ rest) o =
      EndsClean-if (text_eq arg (codes "-s")) _ _
        (EndsClean->>= _ _ (EndsClean-open_script next o) (λ p. EndsClean-read_args rest p))
        (EndsClean->> _ _ (EndsClean-modify _)
          (EndsClean->> _ _ (EndsClean-load arg) (EndsClean-read_args (next ∷ rest) o)))
