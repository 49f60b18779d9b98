-- ===== src/Launcher/Command.antt =====
-- `main` of project2/logger.cpp.
use nctu_unixprog.Base.{
  ℕ, ◌+◌, Option, none, some, List, [], ◌∷◌, ◌++◌, ◌==◌, ltb, if◌then◌else◌, codes, get_or, length,
  text_eq,
}
use nctu_unixprog.Stream.{show_int}
use nctu_unixprog.Text.Token.{strtok}
use nctu_unixprog.Run.{M, ◌>>=◌, ◌>>◌, pure, get, modify, exit, undefined_behaviour}
use nctu_unixprog.Launcher.Host.{Host, Launcher, copy_string, printf}

-- `main` ends by returning 0, or the program is replaced by a command with its arguments.
pub data Ending : Type 0 where
  returned : Ending
  executed : List ℕ → List (Option (List ℕ)) → Ending

-- What an argument is taken for.
pub data Kind : Type 0 where
  output sopath separator command invalid : Kind

unfoldable pub kind_of : List ℕ → Kind
kind_of a =
    if text_eq (codes "-o") a
    then output
    else if text_eq (codes "-p") a
    then sopath
    else if text_eq (codes "--") a
    then separator
    else if get_or a 0 0 == b'-'
    then invalid
    else command

-- `buf` has ten bytes.
unfoldable pub set_logger_out : {W : Type 0} → List ℕ → M (Launcher W) (Unit {0})
set_logger_out text =
    if ltb (length text) 10
    then modify (λ s. record s { logger_out = text })
    else undefined_behaviour

-- `cmd_arg[j] = ...`, in order, in an array of a size.
unfoldable pub store_arg :
    {W : Type 0}
    → ℕ
    → List (Option (List ℕ))
    → Option (List ℕ)
    → M (Launcher W) (List (Option (List ℕ)))
store_arg size filled x =
    if ltb (length filled) size then pure (filled ++ (x ∷ [])) else undefined_behaviour

module _ (host : Host) where
  unfoldable pub set_output : List ℕ → M (Launcher host.World) (Unit {0})
  set_output file = do
    copy_string host file
    s ← get
    let opened : ℕ × host.World = host.o_open s.world file
    modify (λ s. record s { world = opened.1 })
    set_logger_out (show_int opened.0)

  unfoldable pub set_sopath : List ℕ → M (Launcher host.World) (Unit {0})
  set_sopath path = do copy_string host path; modify (λ s. record s { ld_preload = path })

  -- The loop over the arguments of the command, and the NULL behind them.
  unfoldable pub store_args :
      ℕ → List (Option (List ℕ)) → List (List ℕ) → M (Launcher host.World) (List (Option (List ℕ)))
  store_args size filled [] = store_arg size filled none
  store_args size filled (a ∷ args) =
      copy_string host a >> store_arg size filled (some a) >>= λ more. store_args size more args

  unfoldable pub exec_with : List ℕ → List (Option (List ℕ)) → M (Launcher host.World) Ending
  exec_with cmd table =
      get >>= λ s. pure (if host.execvp s.world cmd table then executed cmd table else returned)

  -- Where `execvp` fails the loop over argv is at its end as well.
  unfoldable pub exec_command : List ℕ → List (List ℕ) → M (Launcher host.World) Ending
  exec_command cmd args = do
    copy_string host cmd
    copy_string host cmd
    first ← store_arg (2 + length args) [] (some cmd)
    table ← store_args (2 + length args) first args
    exec_with cmd table

usage : List ℕ
usage =
    codes "usage: ./logger [-o file] [-p sopath] [--] cmd [cmd args ...]\n"
    ++ (codes "        -p: set the path to logger.so, default = ./logger.so\n"
        ++ (codes "        -o: print output to file, print to \"stderr\" if no file specified\n"
            ++ codes "        --: separate the arguments for logger and for the command\n"))

-- `%s` of a NULL, for an option of dashes only, has no defined behaviour.
unfoldable pub print_invalid : {W : Type 0} → Option (List ℕ × List ℕ) → M (Launcher W) Ending
unfolding usage
print_invalid none = undefined_behaviour
print_invalid (some (pch, rest)) =
    printf (codes "./logger: invalid option -- '" ++ (pch ++ codes "'\n")) >> printf usage >> exit 1

unfoldable pub bad_option : {W : Type 0} → List ℕ → M (Launcher W) Ending
bad_option a = print_invalid (strtok (codes "-") a)

module _ (host : Host) where
  -- The last argument: `strlen(NULL)` has no defined behaviour.
  unfoldable pub last_arg : Kind → List ℕ → M (Launcher host.World) Ending
  last_arg output a = undefined_behaviour
  last_arg sopath a = undefined_behaviour
  last_arg separator a = undefined_behaviour
  last_arg command a = exec_command host a []
  last_arg invalid a = bad_option a

  -- The loop over argv.
  unfoldable pub read_argv : List (List ℕ) → M (Launcher host.World) Ending
  read_argv [] = pure returned
  read_argv (a ∷ []) = last_arg (kind_of a) a
  read_argv (a ∷ v ∷ rest) = elim (kind_of a) [
    | output ↦ set_output host v >> read_argv rest
    | sopath ↦ set_sopath host v >> read_argv rest
    | separator ↦ exec_command host v rest
    | command ↦ exec_command host a (v ∷ rest)
    | invalid ↦ bad_option a
  ]

  unfoldable pub set_defaults : M (Launcher host.World) (Unit {0})
  set_defaults = modify (λ s. record s { ld_preload = codes "./logger.so"; logger_out = codes "2" })

  -- The arguments behind argv[0].
  unfoldable pub main : List (List ℕ) → M (Launcher host.World) Ending
  main [] = printf (codes "no command given.\n") >> exit 1
  main (a ∷ args) = set_defaults >> read_argv (a ∷ args)
