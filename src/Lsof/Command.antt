-- ===== src/Lsof/Command.antt =====
-- `CheckCmd` and `main` of project1/hw1.cpp.
use nctu_unixprog.Base.{
  ℕ, Bool, true, false, not, Option, none, some, List, [], ◌∷◌, ◌++◌, ◌&&◌, ◌||◌, ◌==◌, leb,
  if◌then◌else◌, codes, get_or, text_eq,
}
use nctu_unixprog.Stream.{put}
use nctu_unixprog.Text.Token.{lines}
use nctu_unixprog.Text.Find.{find, has_text, c_string}
use nctu_unixprog.Run.{M, ◌>>=◌, ◌>>◌, pure, get, modify, exit, undefined_behaviour}
use nctu_unixprog.Lsof.Files.{Files, Answer, fails, gives}
use nctu_unixprog.Lsof.State.{
  Lsof, ProcInfo, enoent, eacces, ask, need, error, complain, print_head,
}
use nctu_unixprog.Lsof.Links.{find_usr, find_exe, find_cwd_root}
use nctu_unixprog.Lsof.Maps.{without_newline, find_mem}
use nctu_unixprog.Lsof.Fds.{starts_digit, find_fd}

-- `cmd` is set only where the line has a newline.
set_cmd : List ℕ → List ℕ → Option ℕ → List ℕ
unfolding without_newline
set_cmd cmd line none = cmd
set_cmd cmd line (some pos) = without_newline line (some pos)

unfoldable pub match_cmd : List ℕ → List ℕ → List ℕ → Bool × List ℕ
unfolding set_cmd
match_cmd regex cmd line =
    if has_text line regex then (true, set_cmd cmd line (find line (codes "\n"))) else (false, cmd)

module _ (files : Files) (regex cmd : List ℕ) where
  unfoldable pub cmd_line : List (List ℕ) → M (Lsof files.World) (Bool × List ℕ)
  cmd_line [] = get >>= λ s. error files "getline" (files.errno s.world)
  cmd_line (l ∷ ls) =
      ask files.fclose >>= need files "fclose" >> pure (match_cmd regex cmd (c_string l))

  unfoldable pub cmd_at : Answer (List ℕ) → M (Lsof files.World) (Bool × List ℕ)
  cmd_at (fails e) = if e == enoent || e == eacces then pure (false, cmd) else error files "fopen" e
  cmd_at (gives text) = cmd_line (lines text)

  -- The result, and `cmd` after the call.
  unfoldable pub check_cmd : List ℕ → M (Lsof files.World) (Bool × List ℕ)
  check_cmd dir = ask (λ w. files.fopen w dir) >>= cmd_at

pub record Options : Type 0 where
  pub cmd_regex : List ℕ
  pub type_regex : List ℕ
  pub file_regex : List ℕ

abbrev pub no_options : Options
no_options = record { cmd_regex = []; type_regex = []; file_regex = [] }

unfoldable pub is_type : List ℕ → Bool
is_type t =
    text_eq t (codes "REG")
    || text_eq t (codes "CHR")
    || text_eq t (codes "DIR")
    || text_eq t (codes "FIFO")
    || text_eq t (codes "SOCK")
    || text_eq t (codes "unknown")

module _ {W : Type 0} where
  unfoldable pub take_option : List ℕ → List ℕ → Options → M (Lsof W) Options
  take_option name value o =
      if text_eq name (codes "-c")
      then pure (record o { cmd_regex = value })
      else if text_eq name (codes "-t")
      then (if is_type value
          then pure (record o { type_regex = value })
          else (modify (complain (put 0 "Invalid TYPE option.\n")) >> exit 1))
      else if text_eq name (codes "-f")
      then pure (record o { file_regex = value })
      else pure o

  -- `string(argv[i+1])` where argv[i+1] is NULL has no defined behaviour.
  unfoldable pub last_option : List ℕ → Options → M (Lsof W) Options
  last_option name o =
      if text_eq name (codes "-c") || text_eq name (codes "-t") || text_eq name (codes "-f")
      then undefined_behaviour
      else pure o

  -- The arguments behind argv[0], two at a time.
  unfoldable pub read_options : List (List ℕ) → Options → M (Lsof W) Options
  read_options [] o = pure o
  read_options (name ∷ []) o = last_option name o
  read_options (name ∷ value ∷ args) o = take_option name value o >>= read_options args

-- `isalpha(d_name[0])` in the C locale.
unfoldable pub starts_alpha : List ℕ → Bool
starts_alpha name =
    let c = get_or name 0 0 in (leb b'A' c && leb c b'Z') || (leb b'a' c && leb c b'z')

abbrev proc_dir : List ℕ
proc_dir = codes "/proc/"

module _ (files : Files) (o : Options) where
  unfoldable pub list_process : List ℕ → List ℕ → M (Lsof files.World) (Unit {0})
  list_process cmd pid = do
    usr ← find_usr files (proc_dir ++ (pid ++ codes "/comm"))
    let proc : ProcInfo = record { cmd = cmd; pid = pid; usr = usr }
    find_cwd_root files (proc_dir ++ (pid ++ codes "/cwd")) proc (codes "cwd") o.file_regex
        o.type_regex
    find_cwd_root files (proc_dir ++ (pid ++ codes "/root")) proc (codes "root") o.file_regex
        o.type_regex
    find_exe files (proc_dir ++ (pid ++ codes "/exe")) proc o.file_regex o.type_regex
    find_mem files (proc_dir ++ (pid ++ codes "/maps")) proc o.file_regex o.type_regex
    find_fd files (proc_dir ++ (pid ++ codes "/fd")) proc o.file_regex o.type_regex

  -- The variable `cmd` after the entry.
  unfoldable pub proc_matched : List ℕ → Bool × List ℕ → M (Lsof files.World) (List ℕ)
  proc_matched pid (matched, cmd) = if matched then (list_process cmd pid >> pure cmd) else pure cmd

  unfoldable pub proc_entry : List ℕ → List ℕ → M (Lsof files.World) (List ℕ)
  proc_entry pid cmd =
      if not (starts_alpha pid) && starts_digit pid
      then check_cmd files o.cmd_regex cmd (proc_dir ++ (pid ++ codes "/comm")) >>= proc_matched pid
      else pure cmd

  unfoldable pub proc_entries : List (List ℕ) → List ℕ → M (Lsof files.World) (Unit {0})
  proc_entries [] cmd = ask files.closedir >>= need files "closedir"
  proc_entries (n ∷ ns) cmd = proc_entry n cmd >>= proc_entries ns

  -- `main` behind its options.
  unfoldable pub list_processes : M (Lsof files.World) ℕ
  list_processes = do
    names ← ask (λ w. files.opendir w proc_dir) >>= need files "opendir"
    print_head
    proc_entries names []
    pure 0

unfoldable pub main : (files : Files) → List (List ℕ) → M (Lsof files.World) ℕ
main files args = read_options args no_options >>= list_processes files
