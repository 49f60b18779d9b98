-- ===== src/Launcher/Overflow.antt =====
-- The strings that project2/logger.cpp copies into memory that is one byte too short.
use nctu_unixprog.Base.{ℕ, suc, ◌≡◌, ◌≢◌, refl, false, List, [], ◌∷◌, leb, length, arith}
use nctu_unixprog.Run.{undefined, ◌>>◌, modify, undefined_behaviour}
use nctu_unixprog.Launcher.Host.{Host, Launcher, copy_string}
use nctu_unixprog.Launcher.Command.{
  Kind, output, sopath, separator, command, invalid, kind_of, set_output, set_sopath, exec_command,
  last_arg, read_argv, set_defaults, main,
}

module _ (host : Host) (tight : (n : ℕ) → host.usable n ≡ n) where
  copy_string_overflow : (t : List ℕ) → copy_string host t ≡ undefined_behaviour
  unfolding copy_string
  copy_string_overflow t =
      let e : leb (suc (length t)) (length t) ≡ false = ground arith in
      rw (tight (length t)) (rw e refl)

  exec_command_overflow :
      (cmd : List ℕ) (args : List (List ℕ)) (s : Launcher host.World)
      → exec_command host cmd args s ≡ undefined
  unfolding exec_command undefined_behaviour ◌>>◌
  exec_command_overflow cmd args s = rw (copy_string_overflow cmd) refl

  last_arg_overflow :
      (k : Kind) (a : List ℕ) (s : Launcher host.World)
      → k ≢ invalid
      → last_arg host k a s ≡ undefined
  unfolding last_arg undefined_behaviour
  last_arg_overflow output a s h = refl
  last_arg_overflow sopath a s h = refl
  last_arg_overflow separator a s h = refl
  last_arg_overflow command a s h = exec_command_overflow a [] s
  last_arg_overflow invalid a s h = absurd (h refl)

  read_argv_overflow :
      (k : Kind) (a : List ℕ) (rest : List (List ℕ)) (s : Launcher host.World)
      → kind_of a ≡ k
      → k ≢ invalid
      → read_argv host (a ∷ rest) s ≡ undefined
  unfolding read_argv set_output set_sopath undefined_behaviour ◌>>◌
  read_argv_overflow k a [] s e h = rw e (last_arg_overflow k a s h)
  read_argv_overflow output a (v ∷ rest) s e h =
      rw (e, read_argv) (rw (copy_string_overflow v) refl)
  read_argv_overflow sopath a (v ∷ rest) s e h =
      rw (e, read_argv) (rw (copy_string_overflow v) refl)
  read_argv_overflow separator a (v ∷ rest) s e h =
      rw (e, read_argv) (exec_command_overflow v rest s)
  read_argv_overflow command a (v ∷ rest) s e h =
      rw (e, read_argv) (exec_command_overflow a (v ∷ rest) s)
  read_argv_overflow invalid a (v ∷ rest) s e h = absurd (h refl)

-- Where `malloc` gives no byte more than it is asked for, every run whose first argument is not
-- refused writes past the end of a string, or reads a missing argument.
pub main-overflows :
    (host : Host) (a : List ℕ) (rest : List (List ℕ)) (s : Launcher host.World)
    → ((n : ℕ) → host.usable n ≡ n)
    → kind_of a ≢ invalid
    → main host (a ∷ rest) s ≡ undefined
unfolding main set_defaults modify ◌>>◌
main-overflows host a rest s tight h = read_argv_overflow host tight (kind_of a) a rest _ refl h
